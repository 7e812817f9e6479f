-- ===== src/Crud/Query.antt =====
-- src/crud.rs: the scans that list and count items.
use arrow_kanban.Prelude.{
  ℕ, String, Bool, true, false, not, ◌&&◌, Option, none, some, List, any, keep, count, ◌==◌,
  eq_ignore_ascii_case,
}
use arrow_kanban.Crud.{Item, KanbanStore}

-- A filter that is not given passes every row; an absent assignee passes none that is.
abbrev pub passes : Option String → String → Bool
passes none v = true
passes (some want) v = v == want

abbrev pub passes_assignee : Option String → Option String → Bool
passes_assignee none v = true
passes_assignee (some want) none = false
passes_assignee (some want) (some v) = v == want

abbrev pub matches : Option String → Option String → Option String → Option String → Item → Bool
matches status item_type board assignee row =
    not row.deleted
    && passes status row.status
    && passes item_type row.item_type
    && passes board row.board
    && passes_assignee assignee row.assignee

unfoldable pub query_items :
    KanbanStore → Option String → Option String → Option String → Option String → List Item
query_items s status item_type board assignee =
    keep (matches status item_type board assignee) s.items

abbrev pub counts_for_wip : String → List String → Item → Bool
counts_for_wip status exempt row =
    not row.deleted
    && row.status == status
    && not (any (λ t. eq_ignore_ascii_case t row.item_type) exempt)

-- The counter is a u32; a store with 2 ^ 32 rows is out of reach, and it is left unbounded.
unfoldable pub count_at_status : KanbanStore → String → List String → ℕ
count_at_status s status exempt = count (counts_for_wip status exempt) s.items
