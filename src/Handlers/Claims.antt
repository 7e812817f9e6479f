-- ===== src/Handlers/Claims.antt =====
-- server/src/handlers/core.rs: what a claim that succeeds leaves, and a claim after it.
use arrow_kanban.Prelude.{
  String, ◌≡◌, ◌≢◌, refl, ◌∙◌, false, Option, none, some, List, [], ◌∷◌, ◌++◌, arith, eq_iff,
  eq_refl, ok, err, Option-cases, inl, inr,
}
use arrow_kanban.Config.{BoardConfig}
use arrow_kanban.StateModel.{LifecycleState}
use arrow_kanban.StateMachine.{validate_resolution}
use arrow_kanban.Crud.{Item, KanbanStore, Env, later}
use arrow_kanban.Crud.Rows.{get_item, live, update_item}
use arrow_kanban.Crud.Rows.Laws.{modify-ok, find_item-update_item}
use arrow_kanban.Crud.Fields.{update_assignee}
use arrow_kanban.Crud.Status.{status_and_assignee}
use arrow_kanban.Crud.Status.Laws.{moved, update_status-live, Keeps-moved, run_of}
use arrow_kanban.Handlers.{
  MoveRequest, MoveResponse, claim_held, check_claim, write_move, handle_move_typed, check_holder,
  check_bounced, claim_request, handle_claim_typed,
}

-- The row after a claim.
abbrev claimed : Env → String → Item → Item
claimed e agent row = record (moved e "in_progress" row) { assignee = some agent }

module _ (e : Env) (id agent from : String) (s : KanbanStore) (row : Item)
    (h : live s id ≡ some row) where
  abbrev moved_store : KanbanStore
  moved_store = record {
    items = update_item id (moved e "in_progress") s.items;
    runs =
        s.runs
        ++ run_of (later 1 e) id (some row.status) "in_progress" (some agent) false
            (some "claimed (atomic claim verb)")
          ∷ [];
    comments = s.comments;
  }

  moved_store-live : live moved_store id ≡ some (moved e "in_progress" row)
  unfolding live
  moved_store-live = ground (
    arith,
    find_item-update_item id id (moved e "in_progress") s.items (Keeps-moved e "in_progress"),
    eq_refl id,
  )

  abbrev claimed_store : KanbanStore
  claimed_store = record moved_store {
    items = update_item id (λ r. record r { assignee = some agent }) moved_store.items;
  }

  claimed_store-live : live claimed_store id ≡ some (claimed e agent row)
  unfolding live
  claimed_store-live = ground (
    arith,
    find_item-update_item id id (λ r. record r { assignee = some agent }) moved_store.items
        (record { same_id = λ r. refl; same_deleted = λ r. refl }),
    moved_store-live,
    eq_refl id,
  )

  claimed_store-holds :
      agent ≢ "" → status_and_assignee claimed_store id ≡ ok ("in_progress", some agent)
  unfolding status_and_assignee get_item
  claimed_store-holds named = ground (arith, claimed_store-live, eq_iff agent "")

  write_move-claims :
      write_move e (claim_request id agent) from s
      ≡ (ok (record { id = id; from = from; to = "in_progress"; resolution = none }), claimed_store)
  unfolding write_move update_assignee
  write_move-claims = ground (
    arith,
    update_status-live e id "in_progress" (some agent) false (some "claimed (atomic claim verb)") s
        row h,
    modify-ok id (λ r. record r { assignee = some agent }) moved_store (moved e "in_progress" row)
        moved_store-live,
  )

module _ (model : List LifecycleState) (board_config_for : String → Option BoardConfig)
    (stamp : Option String → String → String → String)
    (read_stamp : String → Option (Option String)) where
  check_bounced-reads :
      (id : String) (s : KanbanStore)
      → (check_bounced model board_config_for stamp read_stamp id s).1 ≡ s
  unfolding check_bounced
  check_bounced-reads id s = ground arith

  check_claim-reads : (req : MoveRequest) (s : KanbanStore) → (check_claim req s).1 ≡ s
  unfolding check_claim
  check_claim-reads req s = ground arith

  -- A claim that succeeds passed every check, none of which writes.
  claim-writes :
      (e : Env) (id agent : String) (s : KanbanStore) (row : Item) {r : MoveResponse}
      → live s id ≡ some row
      → (handle_claim_typed model board_config_for stamp read_stamp e id agent s).0 ≡ ok r
      → handle_claim_typed model board_config_for stamp read_stamp e id agent s
        ≡ write_move e (claim_request id agent) row.status s
  unfolding handle_claim_typed handle_move_typed get_item validate_resolution
  claim-writes e id agent s row h done =
      ground (arith, check_bounced-reads id s, check_claim-reads (claim_request id agent) s)

  claim-live :
      (e : Env) (id agent : String) (s : KanbanStore) {r : MoveResponse}
      → (handle_claim_typed model board_config_for stamp read_stamp e id agent s).0 ≡ ok r
      → (row : Item) × (live s id ≡ some row)
  unfolding handle_claim_typed status_and_assignee get_item
  claim-live e id agent s done = elim (Option-cases (live s id)) [
    | inl gone ↦ absurd (ground arith)
    | inr found ↦ found
  ]

  held-refuses :
      (f : Env) (id agent other : String) (s : KanbanStore) {status : String}
      → status_and_assignee s id ≡ ok (status, some agent)
      → agent ≢ ""
      → other ≢ agent
      → handle_claim_typed model board_config_for stamp read_stamp f id other s
        ≡ (err (claim_held id agent), s)
  unfolding handle_claim_typed check_holder
  held-refuses f id agent other s holds named distinct =
      ground (arith, eq_iff agent "", eq_iff agent other)

  -- A claim that succeeds by an agent with a name that is not empty is exclusive: the item is then
  -- in progress under the agent, and a claim by any other agent, at any time until the store
  -- changes, is refused with the holder's name and writes nothing.
  pub handle_claim_typed-excludes :
      (e f : Env) (id agent other : String) (s : KanbanStore) {r : MoveResponse}
      → agent ≢ ""
      → other ≢ agent
      → (handle_claim_typed model board_config_for stamp read_stamp e id agent s).0 ≡ ok r
      → let s' = (handle_claim_typed model board_config_for stamp read_stamp e id agent s).1 in
        (status_and_assignee s' id ≡ ok ("in_progress", some agent))
        × (handle_claim_typed model board_config_for stamp read_stamp f id other s'
            ≡ (err (claim_held id agent), s'))
  handle_claim_typed-excludes e f id agent other s named distinct done =
      let (row, h) = claim-live e id agent s done in
      let run =
        claim-writes e id agent s row h done ∙ write_move-claims e id agent row.status s row h in
      let holds = claimed_store-holds e id agent row.status s row h named in
      rw run (
        holds,
        held-refuses f id agent other (claimed_store e id agent row.status s row h) holds named
            distinct,
      )
