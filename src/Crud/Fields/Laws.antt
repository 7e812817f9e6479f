-- ===== src/Crud/Fields/Laws.antt =====
-- src/crud.rs: each field update is one change of one row, and the list columns behave as sets of
-- texts that are not blank.
use arrow_kanban.Prelude.{
  String, ◌≡◌, refl, false, Option, some, List, [], ◌∷◌, ◌++◌, ◌==◌, arith, inl, inr, if◌then◌else◌,
  contains, is_blank, ok, All, Bool-cases, ap, ◌∙◌,
}
use arrow_kanban.Prelude.Int.{ℤ}
use arrow_kanban.Crud.{Embedding, Item, KanbanStore, Env, Action, ◌>>◌}
use arrow_kanban.Crud.Rows.{modify, live, get_item}
use arrow_kanban.Crud.Rows.Laws.{
  Keeps, modify-seq, live-modify, changed, modify-runs, modify-comments,
}
use arrow_kanban.Crud.Fields.{
  TextColumn, ListColumn, put_text, put_list, list_of, touch_updated_at, update_assignee,
  update_title_field, update_nullable_string_field, nonblank, update_list_field, update_title,
  update_priority, map_option, update_body, update_tags, update_related, update_depends_on,
  update_resolution, update_closed_by, update_embedding, update_rank, set_attempt_count,
  add_to_list_field, get_list_field,
}

pub Keeps-put_text : (c : TextColumn) (v : Option String) → Keeps (put_text c v)
Keeps-put_text TextColumn.priority v = record { same_id = λ row. refl; same_deleted = λ row. refl }
Keeps-put_text _ v = record { same_id = λ row. refl; same_deleted = λ row. refl }

pub Keeps-put_list : (c : ListColumn) (v : List String) → Keeps (put_list c v)
Keeps-put_list ListColumn.tags v = record { same_id = λ row. refl; same_deleted = λ row. refl }
Keeps-put_list _ v = record { same_id = λ row. refl; same_deleted = λ row. refl }

-- `touch_updated_at` on the row.
abbrev pub stamp : Env → Item → Item
stamp e row = record row { updated_at = some (e.now 0) }

-- One call of a public update method.
pub data Edit : Type 0 where
  title : String → Edit
  priority : Option String → Edit
  assignee : Option String → Edit
  body : Option String → Edit
  tags : List String → Edit
  related : List String → Edit
  depends_on : List String → Edit
  resolution : Option String → Edit
  closed_by : Option String → Edit
  embedding : Option Embedding → Edit
  rank : Option ℤ → Edit
  attempts : ℤ → Edit

-- The method that the call runs.
abbrev pub run_edit : Env → String → Edit → Action Unit
run_edit e id (Edit.title v) = update_title e id v
run_edit e id (Edit.priority v) = update_priority e id v
run_edit e id (Edit.assignee v) = update_assignee id v
run_edit e id (Edit.body v) = update_body e id v
run_edit e id (Edit.tags v) = update_tags e id v
run_edit e id (Edit.related v) = update_related e id v
run_edit e id (Edit.depends_on v) = update_depends_on e id v
run_edit e id (Edit.resolution v) = update_resolution e id v
run_edit e id (Edit.closed_by v) = update_closed_by e id v
run_edit e id (Edit.embedding v) = update_embedding id v
run_edit e id (Edit.rank v) = update_rank e id v
run_edit e id (Edit.attempts v) = set_attempt_count id v

-- What it does to the row, in one step.
abbrev pub edit_row : Env → Edit → Item → Item
edit_row e (Edit.title v) row = record row { title = v; updated_at = some (e.now 0) }
edit_row e (Edit.priority v) row = record row { priority = v; updated_at = some (e.now 0) }
edit_row e (Edit.assignee v) row = record row { assignee = v }
edit_row e (Edit.body v) row = record row {
  body = v;
  body_hash = map_option e.digest v;
  updated_at = some (e.now 0);
}
edit_row e (Edit.tags v) row = record row { tags = nonblank v; updated_at = some (e.now 0) }
edit_row e (Edit.related v) row = record row { related = nonblank v; updated_at = some (e.now 0) }
edit_row e (Edit.depends_on v) row = record row {
  depends_on = nonblank v;
  updated_at = some (e.now 0);
}
edit_row e (Edit.resolution v) row = record row { resolution = v; updated_at = some (e.now 0) }
edit_row e (Edit.closed_by v) row = record row { closed_by = v; updated_at = some (e.now 0) }
edit_row e (Edit.embedding v) row = record row { embedding = v }
edit_row e (Edit.rank v) row = record row { priority_rank = v; updated_at = some (e.now 0) }
edit_row e (Edit.attempts v) row = record row { attempt_count = some v }

pub Keeps-edit_row : (e : Env) (d : Edit) → Keeps (edit_row e d)
Keeps-edit_row e (Edit.title v) = record { same_id = λ row. refl; same_deleted = λ row. refl }
Keeps-edit_row e _ = record { same_id = λ row. refl; same_deleted = λ row. refl }

-- Each update method, though it rebuilds the row more than once, is one change of one row.
pub run_edit-modify :
    (e : Env) (id : String) (d : Edit) → run_edit e id d ≡ modify id (edit_row e d)
unfolding touch_updated_at update_assignee update_title_field update_nullable_string_field
    update_list_field update_title update_priority update_body update_tags update_related
    update_depends_on update_resolution update_closed_by update_embedding update_rank
    set_attempt_count
run_edit-modify e id (Edit.title v) =
    modify-seq id (λ row. record row { title = v }) (stamp e)
      (record { same_id = λ row. refl; same_deleted = λ row. refl })
run_edit-modify e id (Edit.priority v) =
    modify-seq id (put_text TextColumn.priority v) (stamp e) (Keeps-put_text TextColumn.priority v)
run_edit-modify e id (Edit.assignee v) = refl
run_edit-modify e id (Edit.body v) =
    ap (λ m. modify id (put_text TextColumn.body v) >> m)
      (modify-seq id (put_text TextColumn.body_hash (map_option e.digest v)) (stamp e)
        (Keeps-put_text TextColumn.body_hash (map_option e.digest v)))
    ∙ modify-seq id (put_text TextColumn.body v)
        (λ row. stamp e (put_text TextColumn.body_hash (map_option e.digest v) row))
        (Keeps-put_text TextColumn.body v)
run_edit-modify e id (Edit.tags v) =
    modify-seq id (put_list ListColumn.tags (nonblank v)) (stamp e)
      (Keeps-put_list ListColumn.tags (nonblank v))
run_edit-modify e id (Edit.related v) =
    modify-seq id (put_list ListColumn.related (nonblank v)) (stamp e)
      (Keeps-put_list ListColumn.related (nonblank v))
run_edit-modify e id (Edit.depends_on v) =
    modify-seq id (put_list ListColumn.depends_on (nonblank v)) (stamp e)
      (Keeps-put_list ListColumn.depends_on (nonblank v))
run_edit-modify e id (Edit.resolution v) =
    modify-seq id (put_text TextColumn.resolution v) (stamp e)
      (Keeps-put_text TextColumn.resolution v)
run_edit-modify e id (Edit.closed_by v) =
    modify-seq id (put_text TextColumn.closed_by v) (stamp e)
      (Keeps-put_text TextColumn.closed_by v)
run_edit-modify e id (Edit.embedding v) = refl
run_edit-modify e id (Edit.rank v) =
    modify-seq id (λ row. record row { priority_rank = v }) (stamp e)
      (record { same_id = λ row. refl; same_deleted = λ row. refl })
run_edit-modify e id (Edit.attempts v) = refl

-- What clients see of an update by a public method, an embedding being one of the length of its
-- column: the item under its id is changed in one step, every other id shows
-- what it showed, and the runs and comments are as they were.
pub live-run_edit :
    (e : Env) (id j : String) (d : Edit) (s : KanbanStore)
    → (live (run_edit e id d s).1 j
        ≡ (if id == j then changed (edit_row e d) (live s j) else live s j))
      × ((run_edit e id d s).1.runs ≡ s.runs)
      × ((run_edit e id d s).1.comments ≡ s.comments)
live-run_edit e id j d s = rw (run_edit-modify e id d) (
  live-modify id j (edit_row e d) s (Keeps-edit_row e d),
  modify-runs id (edit_row e d) s,
  modify-comments id (edit_row e d) s,
)

-- No list column holds a blank text after it is written.
pub nonblank-All : (xs : List String) → All (λ x. is_blank x ≡ false) (nonblank xs)
nonblank-All [] = tt
nonblank-All (x ∷ xs) = elim (Bool-cases (is_blank x)) [
  | inl blank ↦ rw blank (nonblank-All xs)
  | inr text ↦ rw text (text, nonblank-All xs)
]

-- Adding to a list column of a live item changes nothing where the text is in it, and else writes
-- the list with the text at its end, blanks dropped.
pub add_to_list_field-live :
    (e : Env) (id : String) (col : ListColumn) (v : String) (s : KanbanStore) (row : Item)
    → live s id ≡ some row
    → add_to_list_field e id col v s ≡ (
        if contains (list_of col row) v
        then (ok tt, s)
        else modify id (λ r. stamp e (put_list col (nonblank (list_of col row ++ v ∷ [])) r)) s)
unfolding add_to_list_field get_list_field get_item update_list_field touch_updated_at
add_to_list_field-live e id col v s row h =
    let next = nonblank (list_of col row ++ v ∷ []) in
    ground (
      arith,
      ap (λ (m : Action Unit). m s)
          (modify-seq id (put_list col next) (stamp e) (Keeps-put_list col next)),
    )
