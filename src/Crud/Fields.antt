-- ===== src/Crud/Fields.antt =====
-- src/crud.rs: the methods that write fields of one item.
pub mod Laws
use arrow_kanban.Prelude.{
  ℕ, String, Bool, true, false, not, Option, none, some, List, [], ◌∷◌, ◌++◌, ◌==◌, if◌then◌else◌,
  keep, contains, is_blank, Result, ok, err, eqb, length,
}
use arrow_kanban.Prelude.Int.{ℤ, pos}
use arrow_kanban.Crud.{
  Embedding, Item, KanbanStore, CrudError, not_found, Env, later, Action, pure, throw, reads,
  continue, ◌>>=◌, ◌>>◌,
}
use arrow_kanban.Crud.Rows.{get_item, modify}

-- The columns that `update_nullable_string_field` is called on.
pub data TextColumn : Type 0 where
  priority body body_hash resolution closed_by : TextColumn

pub data ListColumn : Type 0 where
  tags related depends_on : ListColumn

abbrev pub put_text : TextColumn → Option String → Item → Item
put_text priority v row = record row { priority = v }
put_text body v row = record row { body = v }
put_text body_hash v row = record row { body_hash = v }
put_text resolution v row = record row { resolution = v }
put_text closed_by v row = record row { closed_by = v }

abbrev pub put_list : ListColumn → List String → Item → Item
put_list tags v row = record row { tags = v }
put_list related v row = record row { related = v }
put_list depends_on v row = record row { depends_on = v }

abbrev pub list_of : ListColumn → Item → List String
list_of tags row = row.tags
list_of related row = row.related
list_of depends_on row = row.depends_on

unfoldable pub touch_updated_at : Env → String → Action Unit
touch_updated_at e id = modify id (λ row. record row { updated_at = some (e.now 0) })

unfoldable pub update_assignee : String → Option String → Action Unit
update_assignee id assignee = modify id (λ row. record row { assignee = assignee })

-- `update_string_field` at its one column.
unfoldable pub update_title_field : String → String → Action Unit
update_title_field id value = modify id (λ row. record row { title = value })

unfoldable pub update_nullable_string_field : String → TextColumn → Option String → Action Unit
update_nullable_string_field id col value = modify id (put_text col value)

-- The elements that a list column keeps: those that are not blank.
abbrev pub nonblank : List String → List String
nonblank values = keep (λ v. not (is_blank v)) values

unfoldable pub update_list_field : String → ListColumn → List String → Action Unit
update_list_field id col values = modify id (put_list col (nonblank values))

unfoldable pub update_title : Env → String → String → Action Unit
update_title e id title = do update_title_field id title; touch_updated_at e id

unfoldable pub update_priority : Env → String → Option String → Action Unit
update_priority e id v = do update_nullable_string_field id priority v; touch_updated_at e id

abbrev pub map_option {ℓ κ} : {A : Type ℓ} {B : Type κ} → (A → B) → Option A → Option B
map_option f none = none
map_option f (some a) = some (f a)

unfoldable pub update_body : Env → String → Option String → Action Unit
update_body e id v = do
  update_nullable_string_field id body v
  update_nullable_string_field id body_hash (map_option e.digest v)
  touch_updated_at e id

unfoldable pub update_tags : Env → String → List String → Action Unit
update_tags e id v = do update_list_field id tags v; touch_updated_at e id

unfoldable pub update_related : Env → String → List String → Action Unit
update_related e id v = do update_list_field id related v; touch_updated_at e id

unfoldable pub update_depends_on : Env → String → List String → Action Unit
update_depends_on e id v = do update_list_field id depends_on v; touch_updated_at e id

unfoldable pub update_resolution : Env → String → Option String → Action Unit
update_resolution e id v = do update_nullable_string_field id resolution v; touch_updated_at e id

unfoldable pub update_closed_by : Env → String → Option String → Action Unit
update_closed_by e id v = do update_nullable_string_field id closed_by v; touch_updated_at e id

unfoldable pub update_embedding : String → Option Embedding → Action Unit
update_embedding id v = modify id (λ row. record row { embedding = v })

unfoldable pub update_rank : Env → String → Option ℤ → Action Unit
update_rank e id v = do modify id (λ row. record row { priority_rank = v }); touch_updated_at e id

unfoldable pub set_attempt_count : String → ℤ → Action Unit
set_attempt_count id n = modify id (λ row. record row { attempt_count = some n })

-- A null reads as 0.
abbrev pub attempts_of : Item → ℤ
attempts_of row = elim row.attempt_count [ some n ↦ n | none ↦ pos 0 ]

abbrev pub read_field : {A : Type 0} → (Item → A) → Result CrudError Item → Result CrudError A
read_field f (ok row) = ok (f row)
read_field f (err x) = err x

unfoldable pub attempt_count : KanbanStore → String → Result CrudError ℤ
attempt_count s id = read_field attempts_of (get_item s id)

unfoldable pub body_hash_of : KanbanStore → String → Result CrudError (Option String)
body_hash_of s id = read_field (λ (row : Item). row.body_hash) (get_item s id)

unfoldable pub tags_of : KanbanStore → String → Result CrudError (List String)
tags_of s id = read_field (λ (row : Item). row.tags) (get_item s id)

unfoldable pub get_list_field : KanbanStore → String → ListColumn → Result CrudError (List String)
get_list_field s id col = read_field (list_of col) (get_item s id)

-- A column that no null stands in, so the scan keeps all elements.
unfoldable pub add_to_list_field : Env → String → ListColumn → String → Action Unit
add_to_list_field e id col value = do
  cur ← reads (λ s. get_list_field s id col)
  if contains cur value
      then pure tt
      else do update_list_field id col (cur ++ value ∷ []); touch_updated_at e id

unfoldable pub remove_from_list_field : Env → String → ListColumn → String → Action Bool
remove_from_list_field e id col value = do
  cur ← reads (λ s. get_list_field s id col)
  let next = keep (λ v. not (v == value)) cur
  if eqb (length next) (length cur)
      then pure false
      else do update_list_field id col next; touch_updated_at e id; pure true
