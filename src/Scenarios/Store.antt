-- ===== src/Scenarios/Store.antt =====
-- A board with one item, claimed by an agent.
use arrow_kanban.Prelude.{
  ◌+◌, ◌<◌, ◌≤◌, String, ◌≡◌, refl, true, false, none, some, [], ◌∷◌, ◌++◌, inr, arith, ok, err,
  All,
}
use arrow_kanban.Prelude.Int.{pos}
use arrow_kanban.ItemType.{expedition, all_prefixes}
use arrow_kanban.IdAlloc.{
  global_max_id, u32_bound, max_over_types, max_over_prefixes, max_id_for_prefix, max_id_from,
  number_of, strip_prefix, parse_u32, before_dot, parse_digits, strip_plus,
}
use arrow_kanban.Crud.{Item, KanbanStore, not_found, new, Env}
use arrow_kanban.Crud.Rows.{live, find_item, get_item}
use arrow_kanban.Crud.Fields.Laws.{Edit, run_edit, edit_row, live-run_edit}
use arrow_kanban.Crud.Status.{update_status, requeue_item}
use arrow_kanban.Crud.Status.Closure.{IsSettled, update_status-IsSettled}
use arrow_kanban.Crud.Status.Requeue.{IsRequeued, requeue_item-IsRequeued}
use arrow_kanban.Crud.Create.{
  CreateItemInput, create_item_with_id, ids_of, new_row, insert_row, push_item,
}
use arrow_kanban.Crud.Ratify.{ratify_phase}
use arrow_kanban.Crud.Ratify.Blocked.{ratify_phase-blocked}
use arrow_kanban.Crud.Calls.{Call, run_call, Reachable, start, call}
use arrow_kanban.Crud.Calls.Keeping.{live_count}
use arrow_kanban.Crud.Calls.Unique.{live_count-Reachable, get_item-row}

abbrev env : Env
env = record { now = λ n. 1000 + n; uuid = λ n. "run"; digest = λ text. "digest" }

abbrev claimed : Item
claimed = record {
  id = "EX-1300";
  title = "a title";
  item_type = "expedition";
  status = "in_progress";
  priority = none;
  created = 10;
  assignee = some "ann";
  board = "development";
  tags = [];
  related = [];
  depends_on = [];
  body = none;
  body_hash = none;
  deleted = false;
  resolution = none;
  closed_by = none;
  updated_at = some 10;
  priority_rank = none;
  attempt_count = some (pos 1);
  embedding = none;
}

abbrev deleted_item : Item
deleted_item = let row = claimed in record row { deleted = true }

abbrev store : KanbanStore
store = record { items = claimed ∷ []; runs = []; comments = [] }

abbrev deleted_store : KanbanStore
deleted_store = record { items = deleted_item ∷ []; runs = []; comments = [] }

abbrev input : CreateItemInput
input = record {
  title = "new";
  item_type = expedition;
  priority = none;
  assignee = none;
  tags = [];
  related = [];
  depends_on = [];
  body = none;
  embedding = none;
}

abbrev ann : String
ann = "ann"

there : live store "EX-1300" ≡ some claimed
unfolding live find_item
there = refl

absent : live store "EX-1301" ≡ none
unfolding live find_item
absent = refl

gone : live deleted_store "EX-1300" ≡ none
unfolding live find_item
gone = refl

largest : global_max_id (ids_of store) ≡ 1300
unfolding global_max_id max_over_types max_over_prefixes max_id_for_prefix max_id_from all_prefixes
    number_of strip_prefix parse_u32 before_dot parse_digits strip_plus
largest = refl

room : global_max_id (ids_of store) + 1 < u32_bound
room = omega (arith, largest)

update_status-IsSettled_example :
    All IsSettled (update_status env "EX-1300" "review" none true none store).1.items
update_status-IsSettled_example =
    update_status-IsSettled env "EX-1300" "review" none true none store (inr (refl, refl), tt)

requeue_item-IsRequeued_example :
    ((requeue_item env "EX-1300" none none "timed out" (pos 2) "dead" store).0
      ≡ ok (record { id = "EX-1300"; attempts = pos 2; status = "blocked"; dead_lettered = true }))
    × IsRequeued env "EX-1300" none none "timed out" "dead" store claimed
        (pos 2)
        true
        (requeue_item env "EX-1300" none none "timed out" (pos 2) "dead" store).1
requeue_item-IsRequeued_example =
    requeue_item-IsRequeued env "EX-1300" none none "timed out" "dead" store claimed (pos 2) there
      refl refl

live-run_edit_example :
    (live (run_edit env "EX-1300" (Edit.title "t") store).1 "EX-1300"
      ≡ some (edit_row env (Edit.title "t") claimed))
    × ((run_edit env "EX-1300" (Edit.title "t") store).1.runs ≡ [])
    × ((run_edit env "EX-1300" (Edit.title "t") store).1.comments ≡ [])
unfolding live find_item
live-run_edit_example = live-run_edit env "EX-1300" "EX-1300" (Edit.title "t") store

ratify_phase-blocked_example :
    (id : String) × (ratify_phase env "phase:1" deleted_store ≡ (err (not_found id), deleted_store))
ratify_phase-blocked_example =
    ratify_phase-blocked env "phase:1" deleted_store [] [] deleted_item refl gone

abbrev created_store : KanbanStore
created_store = run_call env (Call.create_with_id "EX-1300" input) new

abbrev one_call : Reachable created_store
one_call = call env (Call.create_with_id "EX-1300" input) new start tt

live_count-Reachable_example : live_count "EX-1300" created_store.items ≤ 1
live_count-Reachable_example = live_count-Reachable created_store "EX-1300" one_call

created_items : created_store.items ≡ [] ++ new_row env "EX-1300" input ∷ []
unfolding create_item_with_id insert_row push_item get_item live find_item new
created_items = refl

get_item-row_example : get_item created_store "EX-1300" ≡ ok (new_row env "EX-1300" input)
get_item-row_example =
    get_item-row created_store [] [] (new_row env "EX-1300" input) one_call created_items refl
