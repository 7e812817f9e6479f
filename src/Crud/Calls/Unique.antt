-- ===== src/Crud/Calls/Unique.antt =====
-- src/crud.rs: how many live rows of one id a store reached by calls has.
use arrow_kanban.Prelude.{
  ◌+◌, ◌≤◌, ◌<◌, String, ◌≡◌, refl, subst, ap, ◌∙◌, false, none, some, inl, inr, List, [], ◌∷◌,
  ◌++◌, arith, ◌==◌, eq_iff, eq_refl, count-append, contains, map, ok, Bool-cases, Option-cases,
}
use arrow_kanban.IdAlloc.{u32_bound, global_max_id, allocate_id}
use arrow_kanban.IdAlloc.Fresh.{allocate_id-fresh}
use arrow_kanban.Crud.{Item, KanbanStore, new, Env}
use arrow_kanban.Crud.Rows.{is_live, find_item, live, get_item}
use arrow_kanban.Crud.Status.{record_run}
use arrow_kanban.Crud.Create.{
  CreateItemInput, create_item, create_item_with_id, insert_row, push_item, new_row, ids_of,
}
use arrow_kanban.Crud.Create.Laws.{create_item_with_id-insert, create_item_with_id-taken}
use arrow_kanban.Crud.Calls.{Call, run_call, Fits, Reachable, start, call}
use arrow_kanban.Crud.Calls.Keeping.{
  live_count, IsUnique, Preserves, Preserves-edit, Preserves-add, Preserves-remove,
  Preserves-update_status, Preserves-requeue, Preserves-delete, Preserves-comment, Preserves-ratify,
}

-- A table without a live row of an id, and one without the id.
live_count-none :
    (id : String) (rows : List Item) → find_item id rows ≡ none → live_count id rows ≡ 0
unfolding find_item
live_count-none id [] h = refl
live_count-none id (row ∷ rows) h = ground (arith, live_count-none id rows)

live_count-absent :
    (id : String) (rows : List Item)
    → contains (map (λ (row : Item). row.id) rows) id ≡ false
    → live_count id rows ≡ 0
live_count-absent id [] h = refl
live_count-absent id (row ∷ rows) h = ground (arith, live_count-absent id rows)

-- A new row under an id that is not live.
insert_row-IsUnique :
    (e : Env) (id : String) (input : CreateItemInput) (s : KanbanStore)
    → live_count id s.items ≡ 0
    → IsUnique s
    → IsUnique (insert_row e id input s).1
unfolding insert_row push_item record_run
insert_row-IsUnique e id input s free u j = elim (Bool-cases (id == j)) [
  | inl same ↦ ground (
    arith,
    count-append (is_live j) s.items (new_row e id input ∷ []),
    free,
    (eq_iff id j).0 same,
  )
  | inr other ↦ ground (arith, count-append (is_live j) s.items (new_row e id input ∷ []), u j)
]

Preserves-create_with_id :
    (e : Env) (id : String) (input : CreateItemInput) → Preserves (create_item_with_id e id input)
unfolding live
Preserves-create_with_id e id input = record {
  keeps = λ s u. elim (Option-cases (live s id)) [
    | inl free ↦
        rw (create_item_with_id-insert e id input s free)
          (insert_row-IsUnique e id input s (live_count-none id s.items free) u)
    | inr (row, taken) ↦ rw (create_item_with_id-taken e id input s row taken) u
  ];
}

create_item-IsUnique :
    (e : Env) (input : CreateItemInput) (s : KanbanStore)
    → global_max_id (ids_of s) + 1 < u32_bound
    → IsUnique s
    → IsUnique (create_item e input s).1
unfolding create_item
create_item-IsUnique e input s b u =
    let id = allocate_id (ids_of s) input.item_type in
    insert_row-IsUnique e id input s
      (live_count-absent id s.items (allocate_id-fresh (ids_of s) input.item_type b).0) u

run_call-IsUnique :
    (e : Env) (c : Call) (s : KanbanStore) → Fits c s → IsUnique s → IsUnique (run_call e c s)
run_call-IsUnique e (Call.create input) s b u = create_item-IsUnique e input s b u
run_call-IsUnique e (Call.create_with_id id input) s b u =
    (Preserves-create_with_id e id input).keeps s u
run_call-IsUnique e (Call.edit id d) s b u = (Preserves-edit e id d).keeps s u
run_call-IsUnique e (Call.add_to_list id col v) s b u = (Preserves-add e id col v).keeps s u
run_call-IsUnique e (Call.remove_from_list id col v) s b u = (Preserves-remove e id col v).keeps s u
run_call-IsUnique e (Call.move id to agent forced reason) s b u =
    (Preserves-update_status e id to agent forced reason).keeps s u
run_call-IsUnique e (Call.requeue id agent session reason limit tag) s b u =
    (Preserves-requeue e id agent session reason limit tag).keeps s u
run_call-IsUnique e (Call.delete id) s b u = (Preserves-delete id).keeps s u
run_call-IsUnique e (Call.comment id text agent) s b u =
    (Preserves-comment e id text agent).keeps s u
run_call-IsUnique e (Call.ratify phase_tag) s b u = (Preserves-ratify e phase_tag).keeps s u

Reachable-IsUnique : (s : KanbanStore) → Reachable s → IsUnique s
unfolding new
Reachable-IsUnique _ start = λ j. omega arith
Reachable-IsUnique _ (call e c s r b) = run_call-IsUnique e c s b (Reachable-IsUnique s r)

-- In every store that calls make of the empty one, failing calls included, no id has two live rows,
-- while the counter of ids does not run out of its 32 bits where a call allocates one.
pub live_count-Reachable : (s : KanbanStore) (j : String) → Reachable s → live_count j s.items ≤ 1
live_count-Reachable s j r = Reachable-IsUnique s r j

unique_row :
    (before after : List Item) (row : Item)
    → live_count row.id (before ++ row ∷ after) ≤ 1
    → row.deleted ≡ false
    → find_item row.id (before ++ row ∷ after) ≡ some row
unfolding find_item
unique_row [] after row u d = ground (arith, eq_refl row.id)
unique_row (r ∷ before) after row u d = ground (
  arith,
  unique_row before after row,
  count-append (is_live row.id) before (row ∷ after),
  eq_refl row.id,
)

-- In every store that calls make of the empty one, no counter of ids running out, each row that
-- is not deleted is what `get_item` answers for its id.
pub get_item-row :
    (s : KanbanStore) (before after : List Item) (row : Item)
    → Reachable s
    → s.items ≡ before ++ row ∷ after
    → row.deleted ≡ false
    → get_item s row.id ≡ ok row
unfolding get_item live
get_item-row s before after row r split d =
    let u : live_count row.id (before ++ row ∷ after) ≤ 1 =
      subst (λ rows. live_count row.id rows ≤ 1) split (Reachable-IsUnique s r row.id) in
    let here = ap (find_item row.id) split ∙ unique_row before after row u d in ground (arith, here)
