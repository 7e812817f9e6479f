-- ===== src/Crud/Create/Laws.antt =====
-- src/crud.rs: what a creation leaves.
use arrow_kanban.Prelude.{
  ◌+◌, ◌<◌, String, ◌≡◌, refl, false, none, some, ◌⊎◌, inl, inr, List, [], ◌∷◌, ◌++◌, arith, ◌==◌,
  eq_iff, eq_refl, contains, map, ok, err, Bool-cases,
}
use arrow_kanban.IdAlloc.{u32_bound, global_max_id, allocate_id}
use arrow_kanban.IdAlloc.Fresh.{allocate_id-fresh}
use arrow_kanban.Crud.{Item, KanbanStore, duplicate_id, Env, later}
use arrow_kanban.Crud.Rows.{find_item, live, get_item}
use arrow_kanban.Crud.Status.{record_run}
use arrow_kanban.Crud.Status.Laws.{run_of}
use arrow_kanban.Crud.Create.{
  CreateItemInput, new_row, push_item, insert_row, create_item, create_item_with_id, ids_of,
}

find_item-append :
    (j : String) (rows : List Item) (row : Item)
    → find_item j (rows ++ row ∷ [])
      ≡ (elim (find_item j rows) [ some found ↦ some found | none ↦ find_item j (row ∷ []) ])
unfolding find_item
find_item-append j [] row = ground arith
find_item-append j (r ∷ rows) row = ground (arith, find_item-append j rows row)

-- A store with one item more: the new row under its id, every other id as it was, and one run, from
-- no status to `backlog`.
pub record IsCreated (e : Env) (id : String) (input : CreateItemInput) (s t : KanbanStore)
    : Type 0 where
  pub row_of : live t id ≡ some (new_row e id input)
  pub others : (j : String) → (id ≡ j) ⊎ (live t j ≡ live s j)
  pub runs_of : t.runs ≡ s.runs ++ run_of (later 1 e) id none "backlog" none false none ∷ []
  pub comments_of : t.comments ≡ s.comments

insert_row_lem :
    (e : Env) (id : String) (input : CreateItemInput) (s : KanbanStore)
    → live s id ≡ none
    → ((insert_row e id input s).0 ≡ ok id) × IsCreated e id input s (insert_row e id input s).1
unfolding insert_row push_item record_run live find_item
insert_row_lem e id input s free = (
  refl,
  record {
    row_of = ground (arith, find_item-append id s.items (new_row e id input), eq_refl id);
    others = λ j. elim (Bool-cases (id == j)) [
      | inl same ↦ inl ((eq_iff id j).0 same)
      | inr other ↦ inr (ground (arith, find_item-append j s.items (new_row e id input)))
    ];
    runs_of = refl;
    comments_of = refl;
  },
)

pub create_item_with_id-insert :
    (e : Env) (id : String) (input : CreateItemInput) (s : KanbanStore)
    → live s id ≡ none
    → create_item_with_id e id input s ≡ insert_row e id input s
unfolding create_item_with_id get_item
create_item_with_id-insert e id input s free = ground arith

-- Creating under an id that a live item has fails and writes nothing.
pub create_item_with_id-taken :
    (e : Env) (id : String) (input : CreateItemInput) (s : KanbanStore) (row : Item)
    → live s id ≡ some row
    → create_item_with_id e id input s ≡ (err (duplicate_id id), s)
unfolding create_item_with_id get_item
create_item_with_id-taken e id input s row taken = ground arith

-- Creating under an id that no live item has, a deleted one's included, makes that item.
pub create_item_with_id-IsCreated :
    (e : Env) (id : String) (input : CreateItemInput) (s : KanbanStore)
    → live s id ≡ none
    → ((create_item_with_id e id input s).0 ≡ ok id)
      × IsCreated e id input s (create_item_with_id e id input s).1
create_item_with_id-IsCreated e id input s free =
    rw (create_item_with_id-insert e id input s free) (insert_row_lem e id input s free)

find_item-absent :
    (id : String) (rows : List Item)
    → contains (map (λ (row : Item). row.id) rows) id ≡ false
    → find_item id rows ≡ none
unfolding find_item
find_item-absent id [] h = refl
find_item-absent id (row ∷ rows) h = ground (arith, find_item-absent id rows)

-- While the counter of ids does not run out of its 32 bits, creating an item succeeds under an id
-- that no row has, and makes that item.
pub create_item-IsCreated :
    (e : Env) (input : CreateItemInput) (s : KanbanStore)
    → global_max_id (ids_of s) + 1 < u32_bound
    → let id = allocate_id (ids_of s) input.item_type in
      (contains (ids_of s) id ≡ false)
      × ((create_item e input s).0 ≡ ok id)
      × IsCreated e id input s (create_item e input s).1
unfolding create_item live
create_item-IsCreated e input s b =
    let id = allocate_id (ids_of s) input.item_type in
    let absent = (allocate_id-fresh (ids_of s) input.item_type b).0 in
    let made = insert_row_lem e id input s (find_item-absent id s.items absent) in
    (absent, made.0, made.1)
