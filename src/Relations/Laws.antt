-- ===== src/Relations/Laws.antt =====
-- src/relations.rs: the table as a multiset of edges.
use arrow_kanban.Prelude.{
  ℕ, ◌+◌, ◌<◌, String, ◌≡◌, refl, ◌∙◌, Bool, true, false, not, ◌&&◌, ◌||◌, inl, inr, List, [], ◌∷◌,
  ◌==◌, arith, any, keep, count, count-append, contains, if◌then◌else◌, ok, err, Bool-cases, eq_iff,
}
use arrow_kanban.Relations.{
  Relation, RelationsStore, not_found, is_edge, add_relation, delete_edge, has_relation,
  remove_relation, insert, sort, dedup_from, dedup, sources_of, incoming_by_predicate,
}

-- How many live rows relate two items by a predicate.
abbrev pub edge_count : String → String → String → RelationsStore → ℕ
edge_count source target predicate s = count (is_edge source target predicate) s

-- The two edges are one.
abbrev pub same_edge : String → String → String → String → String → String → Bool
same_edge a b p c d q = a == c && b == d && p == q

-- An edge that is added counts once more, and every other edge as often as before.
pub edge_count-add :
    (id : String) (now : ℕ) (a b p c d q : String) (s : RelationsStore)
    → edge_count c d q (add_relation id now a b p s).1
      ≡ edge_count c d q s + (if same_edge a b p c d q then 1 else 0)
unfolding add_relation
edge_count-add id now a b p c d q s =
    ground (arith, count-append (is_edge c d q) s ((add_relation id now a b p []).1))

count_of_any : (test : Relation → Bool) (s : RelationsStore) → any test s ≡ true → 0 < count test s
count_of_any test [] h = absurd (ground arith)
count_of_any test (r ∷ rs) h = ground (arith, count_of_any test rs)

edge_count-delete :
    (a b p c d q : String) (s : RelationsStore)
    → any (is_edge a b p) s ≡ true
    → edge_count c d q (delete_edge a b p s) + (if same_edge a b p c d q then 1 else 0)
      ≡ edge_count c d q s
unfolding delete_edge
edge_count-delete a b p c d q [] h = absurd (ground arith)
edge_count-delete a b p c d q (r ∷ rs) h = elim (Bool-cases (is_edge a b p r)) [
  | inl here ↦ ground (
    arith,
    eq_iff r.source_id a,
    eq_iff r.target_id b,
    eq_iff r.predicate p,
    eq_iff r.source_id c,
    eq_iff r.target_id d,
    eq_iff r.predicate q,
    eq_iff a c,
    eq_iff b d,
    eq_iff p q,
  )
  | inr other ↦ ground (arith, edge_count-delete a b p c d q rs)
]

-- Removing an edge that is there takes one of its rows away, and leaves every other edge.
pub edge_count-remove :
    (a b p c d q : String) (s : RelationsStore)
    → has_relation s a b p ≡ true
    → ((remove_relation a b p s).0 ≡ ok tt)
      × (edge_count c d q (remove_relation a b p s).1 + (if same_edge a b p c d q then 1 else 0)
          ≡ edge_count c d q s)
unfolding has_relation remove_relation
edge_count-remove a b p c d q s h =
    let there : any (is_edge a b p) s ≡ true = h in
    rw there (refl, edge_count-delete a b p c d q s h)

-- Removing an edge that is not there fails and changes nothing.
pub remove_relation-absent :
    (a b p : String) (s : RelationsStore)
    → has_relation s a b p ≡ false
    → remove_relation a b p s ≡ (err (not_found a b p), s)
unfolding has_relation remove_relation
remove_relation-absent a b p s h = ground arith

contains-insert :
    (x y : String) (xs : List String) → contains (insert x xs) y ≡ (x == y || contains xs y)
unfolding insert
contains-insert x y [] = refl
contains-insert x y (z ∷ zs) = ground (arith, contains-insert x y zs)

contains-sort : (xs : List String) (y : String) → contains (sort xs) y ≡ contains xs y
unfolding sort
contains-sort [] y = refl
contains-sort (x ∷ xs) y = contains-insert x y (sort xs) ∙ ground (arith, contains-sort xs y)

contains-dedup_from :
    (x : String) (xs : List String) (y : String)
    → (x == y || contains (dedup_from x xs) y) ≡ (x == y || contains xs y)
unfolding dedup_from
contains-dedup_from x [] y = refl
contains-dedup_from x (z ∷ zs) y = ground (
  arith,
  contains-dedup_from x zs y,
  contains-dedup_from z zs y,
  eq_iff x z,
  eq_iff z y,
  eq_iff x y,
)

contains-dedup : (xs : List String) (y : String) → contains (dedup xs) y ≡ contains xs y
unfolding dedup
contains-dedup [] y = refl
contains-dedup (x ∷ xs) y = contains-dedup_from x xs y

-- The incoming sources of a target are exactly the items with such an edge to it.
pub contains-incoming_by_predicate :
    (s : RelationsStore) (source target predicate : String)
    → contains (incoming_by_predicate s target predicate) source
      ≡ has_relation s source target predicate
unfolding incoming_by_predicate has_relation
contains-incoming_by_predicate s source target predicate =
    contains-dedup _ source ∙ contains-sort _ source ∙ scan s
  where
    scan :
        (rs : RelationsStore)
        → contains
            (sources_of (
              keep
                (λ (r : Relation).
                  not r.deleted && r.target_id == target && r.predicate == predicate)
                rs))
            source
          ≡ any (is_edge source target predicate) rs
    scan [] = refl
    scan (r ∷ rs) = ground (arith, scan rs)
