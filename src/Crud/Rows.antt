-- ===== src/Crud/Rows.antt =====
-- src/crud.rs: finding the row of an item, and changing it.
pub mod Laws
use arrow_kanban.Prelude.{
  ℕ, zero, suc, String, Bool, not, ◌&&◌, Option, none, some, List, [], ◌∷◌, ◌++◌, ◌==◌,
  if◌then◌else◌, count, length, Result, ok, err,
}
use arrow_kanban.Crud.{Run, Comment, Item, KanbanStore, CrudError, not_found, Action}

-- The test of the scans in `get_item` and `find_item_mut`.
abbrev pub is_live : String → Item → Bool
is_live id row = row.id == id && not row.deleted

-- The first row of that id that is not deleted.
unfoldable pub find_item : String → List Item → Option Item
find_item id [] = none
find_item id (row ∷ rows) = if is_live id row then some row else find_item id rows

-- That row with `f` applied to it.
unfoldable pub update_item : String → (Item → Item) → List Item → List Item
update_item id f [] = []
update_item id f (row ∷ rows) = if is_live id row then f row ∷ rows else row ∷ update_item id f rows

-- The item that clients see under an id.
unfoldable pub live : KanbanStore → String → Option Item
live s id = find_item id s.items

unfoldable pub get_item : KanbanStore → String → Result CrudError Item
unfolding live
get_item s id = elim (live s id) [ some row ↦ ok row | none ↦ err (not_found id) ]

-- The shape of every method that rebuilds one row: `find_item_mut(id)?`, then the new batch.
unfoldable pub modify : String → (Item → Item) → Action Unit
unfolding get_item
modify id f s = elim (get_item s id) [
  | ok _ ↦ (ok tt, record s { items = update_item id f s.items })
  | err e ↦ (err e, s)
]

-- `item_count`
unfoldable pub item_count : KanbanStore → ℕ
item_count s = length s.items

-- `active_item_count`
unfoldable pub active_item_count : KanbanStore → ℕ
active_item_count s = count (λ (row : Item). not row.deleted) s.items

-- `load_items`, `load_runs` and `load_comments`: rows read from files, in place of those that
-- are there.
unfoldable pub load_items : List Item → KanbanStore → KanbanStore
load_items rows s = record s { items = rows }

unfoldable pub load_runs : List Run → KanbanStore → KanbanStore
load_runs rows s = record s { runs = rows }

unfoldable pub load_comments : List Comment → KanbanStore → KanbanStore
load_comments rows s = record s { comments = rows }
