-- ===== src/Handlers/Bounces.antt =====
-- server/src/handlers/core.rs: a claim right after a bounce.
use arrow_kanban.Prelude.{
  String, ◌≡◌, refl, ap, ◌∙◌, ◌<>◌, true, false, Option, none, some, List, [], ◌∷◌, ◌++◌, arith,
  eq_iff, eq_refl, ok, err, Result-cases, inl, inr,
}
use mathlib.Core.List.{reverse, reverse-append}
use arrow_kanban.Config.{BoardConfig}
use arrow_kanban.StateModel.{LifecycleState}
use arrow_kanban.Crud.{Item, Run, KanbanStore, Env, later}
use arrow_kanban.Crud.Rows.{get_item, live, update_item}
use arrow_kanban.Crud.Rows.Laws.{modify-ok, find_item-update_item}
use arrow_kanban.Crud.Fields.{update_assignee, touch_updated_at, body_hash_of}
use arrow_kanban.Crud.Comments.{add_comment, push_comment, new_comment, next_comment_id}
use arrow_kanban.Crud.Status.{status_and_assignee, run_reasons_landing, reasons_landing}
use arrow_kanban.Crud.Status.Laws.{moved, update_status-live, Keeps-moved, run_of}
use arrow_kanban.Handlers.{
  MoveResponse, claim_bounced, or_none_text, judge_move, write_move, bounce_request,
  handle_move_typed, handle_bounce_typed, check_holder, check_bounced, newest_stamp, same_hash,
  handle_claim_typed,
}
use arrow_kanban.Handlers.Lawful.{got, move-refused, move-passed}

reasons_landing-snoc :
    (id to : String) (rs : List Run) (r : Run)
    → r.item_id ≡ id
    → r.to_status ≡ to
    → reasons_landing id to (rs ++ r ∷ []) ≡ reasons_landing id to rs ++ r.reason ∷ []
unfolding reasons_landing
reasons_landing-snoc id to [] r h k = ground (arith, eq_iff r.item_id id, eq_iff r.to_status to)
reasons_landing-snoc id to (x ∷ rs) r h k = ground (arith, reasons_landing-snoc id to rs r h k)

same_hash_refl : (o : Option String) → same_hash o o ≡ true
same_hash_refl none = refl
same_hash_refl (some a) = eq_refl a

comment-live :
    (e : Env) (id text : String) (agent : Option String) (s : KanbanStore) (x : Item)
    → live s id ≡ some x
    → let s' = (add_comment e id text agent s).1 in
      (live s' id ≡ some (record x { updated_at = some (e.now 1) })) × (s'.runs ≡ s.runs)
unfolding add_comment push_comment touch_updated_at get_item live
comment-live e id text agent s x h =
    let after = record s {
      comments = s.comments ++ new_comment e (next_comment_id s id) id text agent ∷ [];
    } in
    ground (
      arith,
      modify-ok id (λ row. record row { updated_at = some (e.now 1) }) after x h,
      find_item-update_item id id (λ row. record row { updated_at = some (e.now 1) }) s.items
          (record { same_id = λ r. refl; same_deleted = λ r. refl }),
      eq_refl id,
    )

module _ (e : Env) (id text : String) (s : KanbanStore) (row : Item)
    (h : live s id ≡ some row) where
  abbrev landed : KanbanStore
  landed = record {
    items = update_item id (moved e "backlog") s.items;
    runs = s.runs ++ run_of (later 1 e) id (some row.status) "backlog" none false (some text) ∷ [];
    comments = s.comments;
  }

  landed-live : live landed id ≡ some (moved e "backlog" row)
  unfolding live
  landed-live = ground (
    arith,
    find_item-update_item id id (moved e "backlog") s.items (Keeps-moved e "backlog"),
    eq_refl id,
  )

  write_move-lands :
      write_move e (bounce_request id text) row.status s
      ≡ (ok (record { id = id; from = row.status; to = "backlog"; resolution = none }), landed)
  unfolding write_move
  write_move-lands =
      ground (arith, update_status-live e id "backlog" none false (some text) s row h)

  abbrev released : KanbanStore
  released = record landed {
    items = update_item id (λ r. record r { assignee = none }) landed.items;
  }

  released-live : live released id ≡ some (record (moved e "backlog" row) { assignee = none })
  unfolding live
  released-live = ground (
    arith,
    find_item-update_item id id (λ r. record r { assignee = none }) landed.items
        (record { same_id = λ r. refl; same_deleted = λ r. refl }),
    landed-live,
    eq_refl id,
  )

  release-runs : update_assignee id none landed ≡ (ok tt, released)
  unfolding update_assignee
  release-runs =
      modify-ok id (λ r. record r { assignee = none }) landed (moved e "backlog" row) landed-live

module _ (model : List LifecycleState) (board_config_for : String → Option BoardConfig)
    (stamp : Option String → String → String → String)
    (read_stamp : String → Option (Option String)) where
  -- What a claim reads of the store is the bounce: nobody holds the item, the newest reason to land
  -- on the backlog is a stamp, and the body is as stamped.
  claim-blocked :
      (f : Env) (id other : String) (s : KanbanStore) (x : Item) (rest : List (Option String))
      (reason : String)
      → live s id ≡ some x
      → x.assignee ≡ none
      → run_reasons_landing s id "backlog" ≡ rest ++ some reason ∷ []
      → read_stamp reason ≡ some x.body_hash
      → handle_claim_typed model board_config_for stamp read_stamp f id other s
        ≡ (err (claim_bounced id), s)
  unfolding handle_claim_typed status_and_assignee check_holder check_bounced newest_stamp
      body_hash_of
  claim-blocked f id other s x rest reason h free newest stamped = ground (
    arith,
    got model board_config_for stamp read_stamp s id x h,
    ap reverse newest,
    reverse-append rest (some reason ∷ []),
    same_hash_refl x.body_hash,
  )

  moves :
      (e : Env) (id text : String) (s : KanbanStore) (row : Item) (h : live s id ≡ some row)
      (m : MoveResponse)
      → (handle_move_typed model board_config_for stamp read_stamp e (bounce_request id text) s).0
        ≡ ok m
      → handle_move_typed model board_config_for stamp read_stamp e (bounce_request id text) s ≡ (
        ok (record { id = id; from = row.status; to = "backlog"; resolution = none }),
        landed e id text s row h,
      )
  moves e id text s row h m done =
      let at_row = got model board_config_for stamp read_stamp s id row h in
      let req = bounce_request id text in
      elim (Result-cases (judge_move model board_config_for stamp read_stamp row "backlog")) [
        | inr (x, bad) ↦
            absurd (
              move-refused model board_config_for stamp read_stamp e req s row refl at_row bad done)
        | inl (_, fine) ↦
            move-passed model board_config_for stamp read_stamp e req s row refl at_row fine done
            ∙ write_move-lands e id text s row h
      ]

  abbrev comment_of : Option String → String → String → String
  comment_of sha agent reason =
      "[workit bounce — "
      <> agent
      <> ", server-verb, body-sha:"
      <> or_none_text sha
      <> "] "
      <> reason

  -- A bounce that succeeds moves the item, releases it, and comments on it.
  bounce-writes :
      (e : Env) (id agent reason : String) (s : KanbanStore) (row : Item)
      {r : String × Option String × String} (h : live s id ≡ some row)
      → (handle_bounce_typed model board_config_for stamp read_stamp e id agent reason s).0 ≡ ok r
      → (handle_bounce_typed model board_config_for stamp read_stamp e id agent reason s).1
        ≡ (add_comment
            (later 6 e)
            id
            (comment_of row.body_hash agent reason)
            (some agent)
            (released e id (stamp row.body_hash agent reason) s row h)).1
  unfolding handle_bounce_typed body_hash_of
  bounce-writes e id agent reason s row h done =
      let at_row = got model board_config_for stamp read_stamp s id row h in
      let text = stamp row.body_hash agent reason in
      let req = bounce_request id text in
      elim (Result-cases (handle_move_typed model board_config_for stamp read_stamp e req s).0) [
        | inr (x, failed) ↦ absurd (ground arith)
        | inl (m, moved_ok) ↦
            let run = moves e id text s row h m moved_ok in
            ground (arith, run, release-runs e id text s row h)
      ]

  newest_run :
      (e : Env) (id text : String) (s : KanbanStore) (row : Item) (h : live s id ≡ some row)
      (after : KanbanStore)
      → after.runs ≡ (released e id text s row h).runs
      → run_reasons_landing after id "backlog"
        ≡ reasons_landing id "backlog" s.runs ++ some text ∷ []
  unfolding run_reasons_landing
  newest_run e id text s row h after same =
      ap (reasons_landing id "backlog") same
      ∙ reasons_landing-snoc id "backlog" s.runs
          (run_of (later 1 e) id (some row.status) "backlog" none false (some text)) refl refl

  stamped :
      (e : Env) (text : String) (row : Item)
      → read_stamp text ≡ some row.body_hash
      → read_stamp text ≡ some (moved e "backlog" row).body_hash
  stamped e text row h = ground arith

  -- After a bounce that succeeds, a claim by anyone is refused as of an unrepaired bounce and writes
  -- nothing, until the store changes. `row` is the item before the bounce, and its stamp reads back.
  pub handle_claim-bounced :
      (e f : Env) (id agent other reason : String) (s : KanbanStore) (row : Item)
      {r : String × Option String × String}
      → live s id ≡ some row
      → read_stamp (stamp row.body_hash agent reason) ≡ some row.body_hash
      → (handle_bounce_typed model board_config_for stamp read_stamp e id agent reason s).0 ≡ ok r
      → let s' =
          (handle_bounce_typed model board_config_for stamp read_stamp e id agent reason s).1 in
        handle_claim_typed model board_config_for stamp read_stamp f id other s'
        ≡ (err (claim_bounced id), s')
  handle_claim-bounced e f id agent other reason s row h reads_back done =
      let text = stamp row.body_hash agent reason in
      let before = released e id text s row h in
      let (now_live, same_runs) =
        comment-live (later 6 e) id (comment_of row.body_hash agent reason) (some agent) before
          (record (moved e "backlog" row) { assignee = none }) (released-live e id text s row h) in
      rw (bounce-writes e id agent reason s row h done) (
        claim-blocked f id other _ _ (reasons_landing id "backlog" s.runs) text now_live refl
          (newest_run e id text s row h _ same_runs) (stamped e text row reads_back))
