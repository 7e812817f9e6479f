-- ===== src/Crud/Status/Laws.antt =====
-- src/crud.rs: a move is one change of one row and one run.
use arrow_kanban.Prelude.{
  String, ◌≡◌, refl, ap, ◌∙◌, fun_ext, Bool, true, false, Option, none, some, inl, inr, [], ◌∷◌,
  ◌++◌, eq_refl, arith, if◌then◌else◌, ok, err, Bool-cases,
}
use arrow_kanban.StateMachine.{is_terminal_state}
use arrow_kanban.Crud.{Item, Run, KanbanStore, not_found, Env, later, ◌>>◌, pure}
use arrow_kanban.Crud.Rows.{get_item, modify, live, update_item}
use arrow_kanban.Crud.Rows.Laws.{
  Keeps, modify-seq, modify-ok, update_item_twice, find_item-update_item,
}
use arrow_kanban.Crud.Fields.{update_closed_by}
use arrow_kanban.Crud.Fields.Laws.{Edit, edit_row, run_edit-modify, Keeps-edit_row}
use arrow_kanban.Crud.Status.{record_run, status_of, clear_closure, update_status}

-- The row without its closure fields.
abbrev pub reopened : Env → Item → Item
reopened e row = record row { resolution = none; closed_by = none; updated_at = some (e.now 1) }

pub clear_closure-modify :
    (e : Env) (id to : String)
    → is_terminal_state to ≡ false
    → clear_closure e id to ≡ modify id (reopened e)
unfolding clear_closure
clear_closure-modify e id to h = rw h (
    ap (λ m. m >> update_closed_by (later 1 e) id none)
      (run_edit-modify e id (Edit.resolution none))
    ∙ ap (λ m. modify id (edit_row e (Edit.resolution none)) >> m)
        (run_edit-modify (later 1 e) id (Edit.closed_by none))
    ∙ modify-seq id (edit_row e (Edit.resolution none)) (edit_row (later 1 e) (Edit.closed_by none))
        (Keeps-edit_row e (Edit.resolution none)))

-- What a move does to its row.
abbrev pub moved : Env → String → Item → Item
moved e to row =
    if is_terminal_state to
    then record row { status = to; updated_at = some (e.now 0) }
    else record row {
      status = to;
      resolution = none;
      closed_by = none;
      updated_at = some (e.now 3);
    }

-- The run that it records.
abbrev pub run_of :
    Env → String → Option String → String → Option String → Bool → Option String → Run
run_of e id from to agent forced reason = record {
  run_id = e.uuid 0;
  item_id = id;
  from_status = from;
  to_status = to;
  timestamp = e.now 0;
  by_agent = agent;
  forced = forced;
  reason = reason;
}

pub Keeps-moved : (e : Env) (to : String) → Keeps (moved e to)
Keeps-moved e to = record { same_id = λ row. ground arith; same_deleted = λ row. ground arith }

abbrev set_status : Env → String → Item → Item
set_status e to row = record row { status = to; updated_at = some (e.now 0) }

Keeps-set_status : (e : Env) (to : String) → Keeps (set_status e to)
Keeps-set_status e to = record { same_id = λ row. refl; same_deleted = λ row. refl }

-- The two shapes of `moved`, as functions.
moved_closes : (e : Env) (to : String) → is_terminal_state to ≡ true → set_status e to ≡ moved e to
moved_closes e to h = fun_ext (λ row. ground arith)

moved_opens :
    (e : Env) (to : String)
    → is_terminal_state to ≡ false
    → (λ row. reopened (later 2 e) (set_status e to row)) ≡ moved e to
moved_opens e to h = fun_ext (λ row. ground arith)

module _ (e : Env) (id to : String) (agent : Option String) (forced : Bool) (reason : Option String)
    (s : KanbanStore) where
  -- The store once the run is recorded, with `f` applied to the row.
  abbrev with_run : (Item → Item) → Item → KanbanStore
  with_run f row = record {
    items = update_item id f s.items;
    runs = s.runs ++ run_of (later 1 e) id (some row.status) to agent forced reason ∷ [];
    comments = s.comments;
  }

  up_to_run :
      (row : Item)
      → live s id ≡ some row
      → update_status e id to agent forced reason s
        ≡ (clear_closure (later 2 e) id to >> pure row.status) (with_run (set_status e to) row)
  unfolding update_status status_of get_item record_run
  up_to_run row h = ground (arith, modify-ok id (set_status e to) s row h)

  with_run-live :
      (row : Item)
      → live s id ≡ some row
      → live (with_run (set_status e to) row) id ≡ some (set_status e to row)
  unfolding live
  with_run-live row h = ground (
    arith,
    find_item-update_item id id (set_status e to) s.items (Keeps-set_status e to),
    eq_refl id,
  )

  -- A move of a live item returns its old status, changes its row as `moved` says, records exactly
  -- one run with the old and the new status, and leaves the comments.
  pub update_status-live :
      (row : Item)
      → live s id ≡ some row
      → update_status e id to agent forced reason s ≡ (
        ok row.status,
        record {
          items = update_item id (moved e to) s.items;
          runs = s.runs ++ run_of (later 1 e) id (some row.status) to agent forced reason ∷ [];
          comments = s.comments;
        },
      )
  update_status-live row h = elim (Bool-cases (is_terminal_state to)) [
    | inl closes ↦
        up_to_run row h
        ∙ unfold clear_closure in
          rw closes (ap (λ f. (ok row.status, with_run f row)) (moved_closes e to closes))
    | inr opens ↦
        let after = with_run (set_status e to) row in
        up_to_run row h
        ∙ rw (clear_closure-modify (later 2 e) id to opens) (
            rw
              (modify-ok id (reopened (later 2 e)) after (set_status e to row)
                (with_run-live row h))
              (rw
                (update_item_twice id (set_status e to) (reopened (later 2 e)) s.items
                  (Keeps-set_status e to))
                (ap (λ f. (ok row.status, with_run f row)) (moved_opens e to opens))))
  ]

  -- A move of an item that is not there fails and writes nothing.
  pub update_status-absent :
      live s id ≡ none → update_status e id to agent forced reason s ≡ (err (not_found id), s)
  unfolding update_status status_of get_item
  update_status-absent h = ground arith
