-- ===== src/Crud/Calls.antt =====
-- src/crud.rs: the store as clients drive it, one call of a method at a time. The three
-- loaders, which replace a table by what a file holds, are not calls.
pub mod Keeping
pub mod Unique
use arrow_kanban.Prelude.{
  ℕ, suc, ◌+◌, ◌<◌, String, ◌≡◌, Bool, Option, List, [], ◌∷◌, Result, ok, err,
}
use arrow_kanban.Prelude.Int.{ℤ}
use arrow_kanban.IdAlloc.{u32_bound, global_max_id}
use arrow_kanban.Crud.{KanbanStore, new, Env, Action, pure, ◌>>=◌, ◌>>◌}
use arrow_kanban.Crud.Fields.{ListColumn, add_to_list_field, remove_from_list_field}
use arrow_kanban.Crud.Fields.Laws.{Edit, run_edit}
use arrow_kanban.Crud.Status.{update_status, requeue_item, delete_item}
use arrow_kanban.Crud.Create.{CreateItemInput, create_item, create_item_with_id, ids_of}
use arrow_kanban.Crud.Comments.{add_comment}
use arrow_kanban.Crud.Ratify.{ratify_phase}

-- The methods of the store that write, with their arguments: all but the loading of rows from files.
pub data Call : Type 0 where
  create : CreateItemInput → Call
  create_with_id : String → CreateItemInput → Call
  edit : String → Edit → Call
  add_to_list : String → ListColumn → String → Call
  remove_from_list : String → ListColumn → String → Call
  move : String → String → Option String → Bool → Option String → Call
  requeue : String → Option String → Option String → String → ℤ → String → Call
  delete : String → Call
  comment : String → String → Option String → Call
  ratify : String → Call

-- Runs an action for what it writes.
abbrev pub write : {A : Type 0} → Action A → KanbanStore → KanbanStore
write m s = (m s).1

abbrev pub run_call : Env → Call → KanbanStore → KanbanStore
run_call e (Call.create input) s = write (create_item e input) s
run_call e (Call.create_with_id id input) s = write (create_item_with_id e id input) s
run_call e (Call.edit id d) s = write (run_edit e id d) s
run_call e (Call.add_to_list id col v) s = write (add_to_list_field e id col v) s
run_call e (Call.remove_from_list id col v) s = write (remove_from_list_field e id col v) s
run_call e (Call.move id to agent forced reason) s =
    write (update_status e id to agent forced reason) s
run_call e (Call.requeue id agent session reason limit tag) s =
    write (requeue_item e id agent session reason limit tag) s
run_call e (Call.delete id) s = write (delete_item id) s
run_call e (Call.comment id text agent) s = write (add_comment e id text agent) s
run_call e (Call.ratify phase_tag) s = write (ratify_phase e phase_tag) s

-- The counter of ids has not run out of its 32 bits where a call allocates one.
abbrev pub Fits : Call → KanbanStore → Type 0
Fits (Call.create input) s = global_max_id (ids_of s) + 1 < u32_bound
Fits _ s = Unit

-- The stores that calls make of the empty one, failing calls included.
pub data Reachable : KanbanStore → Type 0 where
  start : Reachable new
  call :
      (e : Env) (c : Call) (s : KanbanStore) → Reachable s → Fits c s → Reachable (run_call e c s)
