-- ===== src/Crud/Create.antt =====
-- src/crud.rs: creating items.
pub mod Laws
use arrow_kanban.Prelude.{
  ℕ, String, Bool, true, false, Option, none, some, List, [], ◌∷◌, ◌++◌, map, if◌then◌else◌, Result,
  ok, err, is_ok,
}
use arrow_kanban.Prelude.Int.{pos}
use arrow_kanban.ItemType.{ItemType, as_str, board}
use arrow_kanban.IdAlloc.{allocate_id}
use arrow_kanban.Crud.{
  Embedding, Item, KanbanStore, duplicate_id, Env, later, Action, pure, throw, reads, continue,
  ◌>>=◌, ◌>>◌,
}
use arrow_kanban.Crud.Rows.{get_item}
use arrow_kanban.Crud.Fields.{map_option}
use arrow_kanban.Crud.Status.{record_run}

pub record CreateItemInput : Type 0 where
  pub title : String
  pub item_type : ItemType
  pub priority : Option String
  pub assignee : Option String
  pub tags : List String
  pub related : List String
  pub depends_on : List String
  pub body : Option String
  pub embedding : Option Embedding

-- The one row of the batch that both `create_item` and `create_item_with_id` build.
abbrev pub new_row : Env → String → CreateItemInput → Item
new_row e id input = record {
  id = id;
  title = input.title;
  item_type = as_str input.item_type;
  status = "backlog";
  priority = input.priority;
  created = e.now 0;
  assignee = input.assignee;
  board = board input.item_type;
  tags = input.tags;
  related = input.related;
  depends_on = input.depends_on;
  body = input.body;
  body_hash = map_option e.digest input.body;
  deleted = false;
  resolution = none;
  closed_by = none;
  updated_at = some (e.now 0);
  priority_rank = none;
  attempt_count = some (pos 0);
  embedding = input.embedding;
}

unfoldable pub push_item : Item → Action Unit
push_item row s = (ok tt, record s { items = s.items ++ row ∷ [] })

-- The id column.
abbrev pub ids_of : KanbanStore → List String
ids_of s = map (λ (row : Item). row.id) s.items

-- What both do once the id is known.
unfoldable pub insert_row : Env → String → CreateItemInput → Action String
unfolding push_item record_run
insert_row e id input = do
  push_item (new_row e id input)
  record_run (later 1 e) id none "backlog" none false none
  pure id

unfoldable pub create_item : Env → CreateItemInput → Action String
unfolding insert_row
create_item e input = do
  id ← reads (λ s. ok (allocate_id (ids_of s) input.item_type))
  insert_row e id input

unfoldable pub create_item_with_id : Env → String → CreateItemInput → Action String
unfolding insert_row
create_item_with_id e id input s =
    if is_ok (get_item s id) then (err (duplicate_id id), s) else insert_row e id input s
