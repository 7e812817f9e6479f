-- ===== src/Crud/Ratify.antt =====
-- src/crud.rs: `ratify_phase`.
pub mod Blocked
use text.Mathlib.Text.{starts_with}
use arrow_kanban.Prelude.{
  ℕ, zero, suc, ◌+◌, String, Bool, true, false, not, ◌&&◌, Option, none, some, List, [], ◌∷◌, ◌++◌,
  ◌==◌, contains, keep, if◌then◌else◌, Result, ok, err,
}
use arrow_kanban.Crud.{
  Item, KanbanStore, CrudError, Env, later, Action, pure, reads, continue, ◌>>=◌, ◌>>◌,
}
use arrow_kanban.Crud.Rows.{get_item}
use arrow_kanban.Crud.Fields.{tags_of, update_tags}
use arrow_kanban.Crud.Status.{status_of, update_status}

abbrev pub pending : String
pending = "pending-ratification"

pub record RatifyReport : Type 0 where
  pub stripped : List String
  pub voyages_started : List String
  pub remaining_pending : ℕ

-- The tags hold the phase and the mark of a draft.
abbrev pub is_draft : String → List String → Bool
is_draft phase_tag tags = contains tags phase_tag && contains tags pending

abbrev pub add_draft :
    String
    → String
    → List String
    → Result CrudError (List (String × List String))
    → Result CrudError (List (String × List String))
add_draft phase_tag id tags (err x) = err x
add_draft phase_tag id tags (ok rest) =
    ok (if is_draft phase_tag tags then (id, tags) ∷ rest else rest)

-- Pass 1, over the rows left: each row is looked up by its id, and `?` ends the scan.
unfoldable pub collect :
    KanbanStore → String → List Item → Result CrudError (List (String × List String))
collect s phase_tag [] = ok []
collect s phase_tag (row ∷ rows) = elim (tags_of s row.id) [
  | err x ↦ err x
  | ok tags ↦ add_draft phase_tag row.id tags (collect s phase_tag rows)
]

-- Pass 2 at one target: whether it is a voyage that was started.
unfoldable pub start_voyage : Env → String → Action Bool
start_voyage e id =
    if starts_with id "VY-"
    then (reads (λ s. status_of s id) >>= λ status.
        if status == "in_progress" then pure false else (do
          update_status e id "in_progress" (some "ratify") false (some "ratified")
          pure true))
    else pure false

unfoldable pub strip_one : Env → String → List String → Action Bool
unfolding start_voyage
strip_one e id tags = do
  update_tags e id (keep (λ t. not (t == pending)) tags)
  start_voyage (later 1 e) id

-- A target takes one reading of the clock, and four more where it starts a voyage.
unfoldable pub strip_all : Env → List (String × List String) → Action (List String × List String)
unfolding strip_one
strip_all e [] = pure ([], [])
strip_all e ((id, tags) ∷ targets) = strip_one e id tags >>= λ started.
    strip_all (later (if started then 5 else 1) e) targets >>= λ found.
    pure (id ∷ found.0, if started then id ∷ found.1 else found.1)

-- Pass 3: the scan of pass 1, counting.
unfoldable pub remaining : KanbanStore → String → List Item → Result CrudError ℕ
remaining s phase_tag [] = ok zero
remaining s phase_tag (row ∷ rows) = elim (tags_of s row.id) [
  | err x ↦ err x
  | ok tags ↦ elim (remaining s phase_tag rows) [
    | err x ↦ err x
    | ok n ↦ ok (if is_draft phase_tag tags then suc n else n)
  ]
]

unfoldable pub ratify_phase : Env → String → Action RatifyReport
unfolding collect strip_all
ratify_phase e phase_tag = do
  targets ← reads (λ s. collect s phase_tag s.items)
  found ← strip_all e targets
  left ← reads (λ s. remaining s phase_tag s.items)
  pure (record { stripped = found.0; voyages_started = found.1; remaining_pending = left })
