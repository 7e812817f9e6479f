-- ===== src/CriticalPath.antt =====
-- src/critical_path.rs: the items of a board as a graph of dependencies.
--
-- The multimap from an item to its dependents is the list of its edges in the order of the pushes,
-- and a map from ids to numbers is a function with `none` for an absent key.
pub mod Walk
pub mod Degrees
pub mod Balance
pub mod Rounds
pub mod Order
pub mod Edges
pub mod Keys
pub mod Analysis
pub mod Results
pub mod Cycles
pub mod Trace
pub mod Worklist
use arrow_kanban.Prelude.{
  ℕ, suc, ◌+◌, String, Bool, true, false, not, ◌&&◌, ◌||◌, ◌==◌, Option, none, some, List, [], ◌∷◌,
  ◌++◌, map, any, keep, count, contains, if◌then◌else◌,
}
use arrow_kanban.Prelude.Int.{ℤ}
use arrow_kanban.Crud.{Item}

-- An item of the analysis. `assignee` and `priority` are "-" where the column is null.
pub record ItemInfo : Type 0 where
  pub id : String
  pub title : String
  pub item_type : String
  pub status : String
  pub priority : String
  pub assignee : String
  pub related : List String
  pub depends_on : List String
  pub rank : Option ℤ

abbrev pub or_dash : Option String → String
or_dash (some s) = s
or_dash none = "-"

unfoldable pub extract_items : List Item → List ItemInfo
extract_items [] = []
extract_items (i ∷ items) =
    let rest = extract_items items in
    if i.deleted
    then rest
    else record {
      id = i.id;
      title = i.title;
      item_type = i.item_type;
      status = i.status;
      priority = or_dash i.priority;
      assignee = or_dash i.assignee;
      related = i.related;
      depends_on = i.depends_on;
      rank = i.priority_rank;
    }
      ∷ rest

abbrev pub has_done_status : ItemInfo → Bool
has_done_status i = i.status == "done" || i.status == "complete" || i.status == "retired"

-- `done_ids`
unfoldable pub done_ids : List ItemInfo → List String
done_ids items = map (λ (i : ItemInfo). i.id) (keep has_done_status items)

-- `active`: the items whose id no finished item has.
unfoldable pub active_items : List ItemInfo → List ItemInfo
unfolding done_ids
active_items items = keep (λ (i : ItemInfo). not (contains (done_ids items) i.id)) items

abbrev pub ids_of : List ItemInfo → List String
ids_of items = map (λ (i : ItemInfo). i.id) items

-- From a dependency to its dependent.
abbrev pub Edge : Type 0
Edge = String × String

pub record Graph : Type 0 where
  -- the keys of `in_degree`, in the order of their insertion
  pub keys : List String
  pub edges : List Edge
  pub in_degree : String → Option ℕ

abbrev pub set {ℓ} : {A : Type ℓ} → (String → Option A) → String → A → String → Option A
set f k v j = if k == j then some v else f j

-- `*in_degree.entry(k).or_insert(0)`
abbrev pub or_zero : Option ℕ → ℕ
or_zero (some n) = n
or_zero none = 0

-- `in_degree.entry(id).or_insert(0)`
unfoldable pub add_key : String → Graph → Graph
add_key id g =
    if contains g.keys id
    then g
    else record g { keys = g.keys ++ id ∷ []; in_degree = set g.in_degree id 0 }

-- The loop over the dependencies of one item. Only active ones count.
unfoldable pub add_dependencies : List String → String → List String → Graph → Graph
add_dependencies active id [] g = g
add_dependencies active id (dep ∷ deps) g = add_dependencies active id deps (
    if contains active dep
    then record g {
      edges = g.edges ++ (dep, id) ∷ [];
      in_degree = set g.in_degree id (suc (or_zero (g.in_degree id)));
    }
    else g)

unfoldable pub add_items : List String → List ItemInfo → Graph → Graph
unfolding add_key add_dependencies
add_items active [] g = g
add_items active (i ∷ items) g =
    add_items active items (add_dependencies active i.id i.depends_on (add_key i.id g))

unfoldable pub build_graph : List ItemInfo → Graph
unfolding add_items
build_graph active =
    add_items (ids_of active) active (record { keys = []; edges = []; in_degree = λ k. none })

-- `adj.get(node)`
abbrev pub dependents : List Edge → String → List String
dependents [] node = []
dependents ((s, t) ∷ es) node = if s == node then t ∷ dependents es node else dependents es node
