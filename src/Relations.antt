-- ===== src/Relations.antt =====
-- src/relations.rs: the table of relations, as the list of its rows in order.
pub mod Laws
use Prim.Native.Char.{code}
use Prim.Native.String
use arrow_kanban.Prelude.{
  ℕ, zero, suc, ◌+◌, String, Bool, true, false, not, ◌&&◌, ◌||◌, List, [], ◌∷◌, ◌++◌, map, ◌==◌,
  any, keep, count, if◌then◌else◌, Result, ok, err, ltb,
}

-- A row of the Relations table.
pub record Relation : Type 0 where
  pub relation_id : String
  pub source_id : String
  pub target_id : String
  pub predicate : String
  pub created_at : ℕ
  pub deleted : Bool

abbrev pub RelationsStore : Type 0
RelationsStore = List Relation

-- `RelationError::NotFound`, with the source, the target and the predicate.
pub data RelationError : Type 0 where
  not_found : String → String → String → RelationError

-- The test of the scans: a live row that relates the two by the predicate.
abbrev pub is_edge : String → String → String → Relation → Bool
is_edge source target predicate r =
    not r.deleted && r.source_id == source && r.target_id == target && r.predicate == predicate

-- `add_relation`, at the random id and the reading of the clock that it takes.
unfoldable pub add_relation :
    String → ℕ → String → String → String → RelationsStore → String × RelationsStore
add_relation id now source target predicate s = (
  id,
  s
      ++ record {
        relation_id = id;
        source_id = source;
        target_id = target;
        predicate = predicate;
        created_at = now;
        deleted = false;
      }
        ∷ [],
)

-- The table with the first such row deleted.
unfoldable pub delete_edge : String → String → String → RelationsStore → RelationsStore
delete_edge source target predicate [] = []
delete_edge source target predicate (r ∷ rs) =
    if is_edge source target predicate r
    then record r { deleted = true } ∷ rs
    else r ∷ delete_edge source target predicate rs

unfoldable pub has_relation : RelationsStore → String → String → String → Bool
has_relation s source target predicate = any (is_edge source target predicate) s

unfoldable pub remove_relation :
    String → String → String → RelationsStore → Result RelationError Unit × RelationsStore
remove_relation source target predicate s =
    if any (is_edge source target predicate) s
    then (ok tt, delete_edge source target predicate s)
    else (err (not_found source target predicate), s)

unfoldable pub query_relations : RelationsStore → String → List Relation
query_relations s item =
    keep (λ (r : Relation). not r.deleted && (r.source_id == item || r.target_id == item)) s

-- The order of `String`: by code point, a prefix first.
unfoldable pub less : String → String → Bool
less String.[] String.[] = false
less String.[] (String.◌∷◌ d t) = true
less (String.◌∷◌ c s) String.[] = false
less (String.◌∷◌ c s) (String.◌∷◌ d t) =
    if ltb (code c) (code d) then true else if ltb (code d) (code c) then false else less s t

-- `sort`, by insertion.
unfoldable pub insert : String → List String → List String
insert x [] = x ∷ []
insert x (y ∷ ys) = if less y x then y ∷ insert x ys else x ∷ y ∷ ys

unfoldable pub sort : List String → List String
sort [] = []
sort (x ∷ xs) = insert x (sort xs)

-- `dedup`: of a run of equal elements the first stays.
unfoldable pub dedup_from : String → List String → List String
dedup_from x [] = []
dedup_from x (y ∷ ys) = if x == y then dedup_from x ys else y ∷ dedup_from y ys

unfoldable pub dedup : List String → List String
unfolding dedup_from
dedup [] = []
dedup (x ∷ xs) = x ∷ dedup_from x xs

-- The sources of the live rows to a target by a predicate.
abbrev pub sources_of : List Relation → List String
sources_of rs = map (λ (r : Relation). r.source_id) rs

unfoldable pub incoming_by_predicate : RelationsStore → String → String → List String
incoming_by_predicate s target predicate = dedup (
    sort (
      sources_of (
        keep (λ (r : Relation). not r.deleted && r.target_id == target && r.predicate == predicate)
          s)))

unfoldable pub active_count : RelationsStore → ℕ
active_count s = count (λ (r : Relation). not r.deleted) s

-- `load`: rows read from files, behind those that are there.
unfoldable pub load : List Relation → RelationsStore → RelationsStore
load rows s = s ++ rows
