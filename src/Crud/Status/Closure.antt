-- ===== src/Crud/Status/Closure.antt =====
-- src/crud.rs: what a change of status does to the resolution and the closer of an item.
use arrow_kanban.Prelude.{
  String, ◌≡◌, refl, Bool, true, ◌⊎◌, inl, inr, Option, none, List, [], ◌∷◌, All, Option-cases,
  Bool-cases,
}
use arrow_kanban.StateMachine.{is_terminal_state}
use arrow_kanban.Crud.{Item, KanbanStore, Env}
use arrow_kanban.Crud.Rows.{is_live, update_item, live}
use arrow_kanban.Crud.Status.{update_status}
use arrow_kanban.Crud.Status.Laws.{moved, update_status-live, update_status-absent}

abbrev pub IsSettled : Item → Type 0
IsSettled row =
    (is_terminal_state row.status ≡ true) ⊎ ((row.resolution ≡ none) × (row.closed_by ≡ none))

All-update_item :
    (id : String) (f : Item → Item) (rows : List Item)
    → ((row : Item) → IsSettled row → IsSettled (f row))
    → All IsSettled rows
    → All IsSettled (update_item id f rows)
unfolding update_item
All-update_item id f [] k h = tt
All-update_item id f (row ∷ rows) k h = elim (Bool-cases (is_live id row)) [
  | inl here ↦ rw here (k row h.0, h.1)
  | inr other ↦ rw other (h.0, All-update_item id f rows k h.1)
]

-- A move leaves its row settled, whatever the row was: the fields are cleared unless the new status
-- is terminal.
moved-IsSettled : (e : Env) (to : String) (row : Item) → IsSettled (moved e to row)
moved-IsSettled e to row = elim (Bool-cases (is_terminal_state to)) [
  | inl closes ↦ rw closes (inl closes)
  | inr opens ↦ rw opens (inr (refl, refl))
]

-- Where every item that is not at a terminal status has no resolution and no closer, so it is after
-- any move, forced and failing ones included.
pub update_status-IsSettled :
    (e : Env) (id to : String) (agent : Option String) (forced : Bool) (reason : Option String)
    (s : KanbanStore)
    → All IsSettled s.items
    → All IsSettled (update_status e id to agent forced reason s).1.items
update_status-IsSettled e id to agent forced reason s h = elim (Option-cases (live s id)) [
  | inl gone ↦ rw (update_status-absent e id to agent forced reason s gone) h
  | inr (row, there) ↦
      rw (update_status-live e id to agent forced reason s row there)
        (All-update_item id (moved e to) s.items (λ r _. moved-IsSettled e to r) h)
]
