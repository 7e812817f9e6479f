-- ===== src/Crud/Status/Requeue.antt =====
-- src/crud.rs: releasing a claim, and dead-lettering at the cap.
use arrow_kanban.Prelude.{
  String, ◌≡◌, refl, ◌≢◌, Bool, true, false, inl, inr, Option, none, some, [], ◌∷◌, ◌++◌, arith,
  eq_iff, not, ◌&&◌, Option-cases, ◌<>◌, ◌⊎◌, ok, err, Bool-cases, ◌∙◌, contains, if◌then◌else◌,
}
use arrow_kanban.Prelude.Decimal.{show_ℤ}
use arrow_kanban.Prelude.Int.{ℤ, pos, leb_ℤ, add_one_i32}
use arrow_kanban.Crud.{
  Item, Run, KanbanStore, CrudError, not_found, invalid_requeue, Env, later, Action, pure, ◌>>◌,
}
use arrow_kanban.Crud.Rows.{get_item, live}
use arrow_kanban.Crud.Rows.Laws.{Keeps, after, live-after, live-after_other, modify-after}
use arrow_kanban.Crud.Fields.{
  ListColumn, update_assignee, set_attempt_count, attempt_count, attempts_of, nonblank,
  add_to_list_field,
}
use arrow_kanban.Crud.Fields.Laws.{add_to_list_field-live}
use arrow_kanban.Crud.Status.{
  RequeueOutcome, requeue_reason, landing, release, requeue_claimed, requeue_item, status_of,
}
use arrow_kanban.Crud.Status.Laws.{moved, run_of, Keeps-moved, update_status-live}

-- A move to a status, the assignee cleared, the attempts written.
abbrev pub released : Env → ℤ → String → Item → Item
released e n to row = let r = moved e to row in record r { assignee = none; attempt_count = some n }

unassigned : Env → String → Item → Item
unassigned e to row = let r = moved e to row in record r { assignee = none }

-- The tag of a dead letter, added at the end of the tags.
abbrev pub tagged : Env → String → Item → Item → Item
tagged e tag row r = record r {
  tags = nonblank (row.tags ++ tag ∷ []);
  updated_at = some (e.now 4);
}

Keeps-unassigned : (e : Env) (to : String) → Keeps (unassigned e to)
unfolding unassigned
Keeps-unassigned e to = record {
  same_id = λ row. (Keeps-moved e to).same_id row;
  same_deleted = λ row. (Keeps-moved e to).same_deleted row;
}

Keeps-released : (e : Env) (n : ℤ) (to : String) → Keeps (released e n to)
Keeps-released e n to = record {
  same_id = λ row. (Keeps-moved e to).same_id row;
  same_deleted = λ row. (Keeps-moved e to).same_deleted row;
}

module _ (e : Env) (id : String) (agent session : Option String) (reason tag : String)
    (s : KanbanStore) (row : Item) where
  abbrev the_run : ℤ → Bool → Run
  the_run n dead =
      run_of (later 1 e) id (some row.status) (landing dead) agent false
        (some (requeue_reason n session reason))

  abbrev outcome : ℤ → Bool → RequeueOutcome
  outcome n dead = record { id = id; attempts = n; status = landing dead; dead_lettered = dead }

  abbrev released_store : ℤ → Bool → KanbanStore
  released_store n dead = after id s (released e n (landing dead)) (s.runs ++ the_run n dead ∷ [])

  -- The tail of a release: the tag of a dead letter, and the outcome.
  finish : ℤ → Bool → Action RequeueOutcome
  finish n dead = do
    if dead then add_to_list_field (later 4 e) id ListColumn.tags tag else pure tt
    pure (outcome n dead)

  up_to_finish :
      (n : ℤ) (dead : Bool)
      → live s id ≡ some row
      → release e id agent session reason n dead tag s ≡ finish n dead (released_store n dead)
  unfolding release update_assignee set_attempt_count finish unassigned
  up_to_finish n dead h =
      let rs = s.runs ++ the_run n dead ∷ [] in
      rw
        (update_status-live e id (landing dead) agent false (some (requeue_reason n session reason))
          s row h)
        (rw
          (modify-after id s row h (moved e (landing dead)) (λ r. record r { assignee = none }) rs
            (Keeps-moved e (landing dead)))
          (rw
            (modify-after id s row h (unassigned e (landing dead))
              (λ r. record r { attempt_count = some n }) rs (Keeps-unassigned e (landing dead)))
            refl))

  finish_alive :
      (n : ℤ)
      → finish n false (released_store n false) ≡ (ok (outcome n false), released_store n false)
  unfolding finish
  finish_alive n = refl

  moved_tags : (to : String) → (moved e to row).tags ≡ row.tags
  moved_tags to = ground arith

  live-released :
      (n : ℤ) (dead : Bool)
      → live s id ≡ some row
      → live (released_store n dead) id ≡ some (released e n (landing dead) row)
  live-released n dead h =
      live-after id s row h (released e n (landing dead)) (s.runs ++ the_run n dead ∷ [])
        (Keeps-released e n (landing dead))

  finish_dead :
      (n : ℤ)
      → live s id ≡ some row
      → finish n true (released_store n true) ≡ (
          if contains row.tags tag then (ok (outcome n true), released_store n true) else (
            ok (outcome n true),
            after id s
                (λ r. tagged e tag row (released e n "blocked" r))
                (s.runs ++ the_run n true ∷ []),
          ))
  unfolding finish
  finish_dead n h =
      let rs = s.runs ++ the_run n true ∷ [] in
      let added =
        add_to_list_field-live (later 4 e) id ListColumn.tags tag (released_store n true)
          (released e n "blocked" row) (live-released n true h) in
      ground (
        arith,
        added,
        moved_tags "blocked",
        modify-after id s row h (released e n "blocked") (tagged e tag row) rs
            (Keeps-released e n "blocked"),
      )

  -- The row that a requeue leaves: released, and tagged where it is dead and lacks the tag.
  abbrev pub requeued : ℤ → Bool → Item
  requeued n dead =
      let r = released e n (landing dead) row in
      if dead && not (contains row.tags tag) then tagged e tag row r else r

  -- A store after a requeue: the item's row, one run more, the rest as it was.
  pub record IsRequeued (n : ℤ) (dead : Bool) (t : KanbanStore) : Type 0 where
    pub row_of : live t id ≡ some (requeued n dead)
    pub runs_of : t.runs ≡ s.runs ++ the_run n dead ∷ []
    pub comments_of : t.comments ≡ s.comments
    pub others : (j : String) → (id ≡ j) ⊎ (live t j ≡ live s j)

  released_store-IsRequeued :
      (n : ℤ) (dead : Bool)
      → live s id ≡ some row
      → (dead && not (contains row.tags tag)) ≡ false
      → IsRequeued n dead (released_store n dead)
  released_store-IsRequeued n dead h c = record {
    row_of = live-released n dead h ∙ rw c refl;
    runs_of = refl;
    comments_of = refl;
    others = λ j.
        live-after_other id j s (released e n (landing dead)) (s.runs ++ the_run n dead ∷ [])
          (Keeps-released e n (landing dead));
  }

  Keeps-tagged : (n : ℤ) → Keeps (λ r. tagged e tag row (released e n "blocked" r))
  Keeps-tagged n = record {
    same_id = λ r. (Keeps-moved e "blocked").same_id r;
    same_deleted = λ r. (Keeps-moved e "blocked").same_deleted r;
  }

  Finished : ℤ → Bool → Type 0
  Finished n dead =
      ((finish n dead (released_store n dead)).0 ≡ ok (outcome n dead))
      × IsRequeued n dead (finish n dead (released_store n dead)).1

  finish_lem : (n : ℤ) (dead : Bool) → live s id ≡ some row → Finished n dead
  unfolding Finished
  finish_lem n false h = rw (finish_alive n) (refl, released_store-IsRequeued n false h refl)
  finish_lem n true h = elim (Bool-cases (contains row.tags tag)) [
    | inl has ↦
        rw (finish_dead n h) (rw has (refl, released_store-IsRequeued n true h (rw has refl)))
    | inr lacks ↦
        let rs = s.runs ++ the_run n true ∷ [] in
        let f : Item → Item = λ r. tagged e tag row (released e n "blocked" r) in
        rw (finish_dead n h) (
          rw lacks (
            refl,
            record {
              row_of = live-after id s row h f rs (Keeps-tagged n) ∙ rw lacks refl;
              runs_of = refl;
              comments_of = refl;
              others = λ j. live-after_other id j s f rs (Keeps-tagged n);
            },
          ))
  ]

  requeue_item-release :
      (limit : ℤ)
      → live s id ≡ some row
      → row.status ≡ "in_progress"
      → leb_ℤ (pos 1) limit ≡ true
      → let n = add_one_i32 (attempts_of row) in
        requeue_item e id agent session reason limit tag s
        ≡ release e id agent session reason n (leb_ℤ limit n) tag s
  unfolding requeue_item requeue_claimed status_of attempt_count get_item
  requeue_item-release limit h p c = ground (arith, eq_iff row.status "in_progress")

  -- A requeue of a live item that is in progress, under a cap of at least 1, counts one attempt
  -- more, in 32 bits. Below the cap the item goes to `backlog`, and from the cap on to `blocked`,
  -- where its tags get the dead-letter tag if they lack it, blank tags dropped. Its assignee and
  -- closure fields are cleared, one run records the move, and every other item and the comments
  -- stay.
  pub requeue_item-IsRequeued :
      (limit : ℤ)
      → live s id ≡ some row
      → row.status ≡ "in_progress"
      → leb_ℤ (pos 1) limit ≡ true
      → let n = add_one_i32 (attempts_of row) in
        let dead = leb_ℤ limit n in
        ((requeue_item e id agent session reason limit tag s).0 ≡ ok (outcome n dead))
        × IsRequeued n dead (requeue_item e id agent session reason limit tag s).1
  unfolding Finished
  requeue_item-IsRequeued limit h p c =
      let n = add_one_i32 (attempts_of row) in
      rw (requeue_item-release limit h p c)
        (rw (up_to_finish n (leb_ℤ limit n) h) (finish_lem n (leb_ℤ limit n) h))

  -- A requeue with a cap below 1, of an item that is not there, or of one that is not in progress
  -- fails and writes nothing.
  pub requeue_item-refused :
      (limit : ℤ)
      → (leb_ℤ (pos 1) limit ≡ false)
        ⊎ (live s id ≡ none)
        ⊎ ((live s id ≡ some row) × (row.status ≢ "in_progress"))
      → (x : CrudError) × (requeue_item e id agent session reason limit tag s ≡ (err x, s))
  unfolding requeue_item status_of get_item
  requeue_item-refused limit h = elim (Bool-cases (leb_ℤ (pos 1) limit)) [
    | inr low ↦ (invalid_requeue ("cap must be >= 1, got " <> show_ℤ limit), ground arith)
    | inl high ↦ elim (Option-cases (live s id)) [
      | inl gone ↦ (not_found id, ground arith)
      | inr (found, there) ↦ (
        invalid_requeue (
            id <> " is '" <> found.status
            <> "', not in_progress — requeue releases a claim, and there is no claim to release"),
        ground (arith, eq_iff row.status "in_progress"),
      )
    ]
  ]
