-- ===== src/Crud/Ratify/Blocked.antt =====
-- src/crud.rs: what a deleted item does to `ratify_phase`.
use arrow_kanban.Prelude.{
  String, ◌≡◌, refl, ap, ◌∙◌, none, inl, inr, List, [], ◌∷◌, ◌++◌, err, arith, Option-cases,
}
use arrow_kanban.Crud.{Item, KanbanStore, not_found, Env}
use arrow_kanban.Crud.Rows.{live, get_item}
use arrow_kanban.Crud.Fields.{tags_of}
use arrow_kanban.Crud.Ratify.{collect, ratify_phase}

-- The first row that is not live ends pass 1.
collect-blocked :
    (s : KanbanStore) (phase_tag : String) (before after : List Item) (row : Item)
    → live s row.id ≡ none
    → (id : String) × (collect s phase_tag (before ++ row ∷ after) ≡ err (not_found id))
unfolding collect tags_of get_item
collect-blocked s phase_tag [] after row h = (row.id, ground arith)
collect-blocked s phase_tag (r ∷ before) after row h = elim (Option-cases (live s r.id)) [
  | inl gone ↦ (r.id, ground arith)
  | inr (found, e) ↦
      let (id, fails) = collect-blocked s phase_tag before after row h in (id, ground arith)
]

-- Where the table holds a row whose id has no live row, as a deletion leaves one, ratifying any
-- phase fails with `not_found` and writes nothing.
pub ratify_phase-blocked :
    (e : Env) (phase_tag : String) (s : KanbanStore) (before after : List Item) (row : Item)
    → s.items ≡ before ++ row ∷ after
    → live s row.id ≡ none
    → (id : String) × (ratify_phase e phase_tag s ≡ (err (not_found id), s))
unfolding ratify_phase
ratify_phase-blocked e phase_tag s before after row split h =
    let (id, fails) = collect-blocked s phase_tag before after row h in
    let here : collect s phase_tag s.items ≡ err (not_found id) =
      ap (collect s phase_tag) split ∙ fails in
    (id, rw here refl)
