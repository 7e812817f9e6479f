-- ===== src/CriticalPath/Trace.antt =====
-- src/critical_path.rs: the loop of `trace_longest_path` ends.
use arrow_kanban.Prelude.{
  ℕ, zero, suc, ◌<◌, ◌≡◌, refl, ap, ◌∙◌, String, Bool, true, ◌==◌, Option, some, List, [], ◌∷◌,
  ◌++◌, arith, eq_iff, eq_refl, find, keep, contains, length, length-append, leb, eqb, Bool-cases,
  Option-cases, inl, inr,
}
use arrow_kanban.CriticalPath.{ItemInfo, ids_of, or_zero}
use arrow_kanban.CriticalPath.Edges.{depends}
use arrow_kanban.CriticalPath.Order.{List-cases}
use mathlib.Core.List.{reverse, append_assoc}
use arrow_kanban.CriticalPath.Analysis.{
  deps_of, deepest_of, walk_back, has_depth, trace_longest_path,
}

contains-split :
    (xs : List String) (s : String)
    → contains xs s ≡ true
    → (before : List String) × (after : List String) × (xs ≡ before ++ s ∷ after)
contains-split [] s h = cc
contains-split (x ∷ xs) s h = elim (Bool-cases (x == s)) [
  | inl same ↦ let e : x ≡ s = (eq_iff x s).0 same in ([], xs, ap (λ y. y ∷ xs) e)
  | inr other ↦
      let (before, after, e) = contains-split xs s (ground arith) in
      (x ∷ before, after, ap (λ ys. x ∷ ys) e)
]

contains-deepest_of :
    (depth : String → Option ℕ) (best : String) (ds : List String)
    → contains (best ∷ ds) (deepest_of depth best ds) ≡ true
contains-deepest_of depth best [] = ground (arith, eq_refl best)
contains-deepest_of depth best (d ∷ ds) =
    elim (Bool-cases (leb (or_zero (depth best)) (or_zero (depth d)))) [
      | inl deeper ↦ rw deeper (ground (arith, contains-deepest_of depth d ds))
      | inr other ↦ rw other (ground (arith, contains-deepest_of depth best ds))
    ]

contains-keep :
    (p : String → Bool) (xs : List String) (s : String)
    → contains (keep p xs) s ≡ true
    → (p s ≡ true) × (contains xs s ≡ true)
contains-keep p [] s h = cc
contains-keep p (x ∷ xs) s h = elim (Bool-cases (x == s)) [
  | inl same ↦ ground (arith, ap p ((eq_iff x s).0 same), contains-keep p xs s)
  | inr other ↦ ground (arith, contains-keep p xs s)
]

-- What an item is traced back to is an active dependency of it.
contains-deps_of :
    (active : List String) (items : List ItemInfo) (t s : String)
    → contains (deps_of active items t) s ≡ true
    → (contains active s ≡ true) × (depends items t s ≡ true)
unfolding deps_of
contains-deps_of active [] t s h = cc
contains-deps_of active (i ∷ items) t s h = elim (Bool-cases (contains (ids_of items) t)) [
  | inl later ↦ ground (arith, contains-deps_of active items t s)
  | inr last ↦ ground (arith, contains-keep (contains active) i.depends_on s)
]

-- A list in which each item stands behind what it is traced back to.
module _ (deps : String → List String) (depth : String → Option ℕ) (ordered : List String)
    (backward : (before after : List String) (t s : String)
      → ordered ≡ before ++ t ∷ after
      → contains (deps t) s ≡ true
      → contains before s ≡ true) where
  walk_back-ends :
      (fuel : ℕ) (current : String) (path before after : List String)
      → ordered ≡ before ++ current ∷ after
      → length before < fuel
      → (p : List String) × (walk_back deps depth fuel current path ≡ some p)
  unfolding walk_back
  walk_back-ends zero current path before after split room = absurd (omega arith)
  walk_back-ends (suc fuel) current path before after split room =
      elim (List-cases (deps current)) [
        | inl none_left ↦ (path, rw (none_left, walk_back) refl)
        | inr (d, ds, e) ↦
            let next = deepest_of depth d ds in
            let (b, a, at) =
              contains-split before next (
                backward before after current next split (rw e (contains-deepest_of depth d ds))) in
            let there : ordered ≡ b ++ next ∷ (a ++ current ∷ after) =
              split ∙ ap (λ l. l ++ current ∷ after) at ∙ append_assoc b (next ∷ a) _ in
            let (p, run) =
              walk_back-ends fuel next (path ++ next ∷ []) b (a ++ current ∷ after) there
                (omega (arith, ap length at, length-append b (next ∷ a))) in
            (p, rw (e, walk_back) run)
      ]

find_has :
    (p : String → Bool) (xs : List String) (x : String) → find p xs ≡ some x → contains xs x ≡ true
find_has p [] x h = cc
find_has p (y ∷ xs) x h = elim (Bool-cases (p y)) [
  | inl here ↦ ground (arith, eq_refl y)
  | inr there ↦ ground (arith, find_has p xs x)
]

pub trace_longest_path-ends :
    (ordered : List String) (depth : String → Option ℕ) (active : List ItemInfo) (max_depth : ℕ)
    → ((before after : List String) (t s : String)
        → ordered ≡ before ++ t ∷ after
        → contains (ids_of active) s ≡ true
        → depends active t s ≡ true
        → contains before s ≡ true)
    → (p : List String) × (trace_longest_path ordered depth active max_depth ≡ some p)
unfolding trace_longest_path
trace_longest_path-ends ordered depth active max_depth ordering =
    elim (Bool-cases (eqb max_depth 0)) [
      | inl flat ↦ ([], ground arith)
      | inr deep ↦ elim (Option-cases (find (has_depth depth max_depth) ordered)) [
        | inl nowhere ↦ ([], ground arith)
        | inr (start, found) ↦
            let (before, after, split) =
              contains-split ordered start
                (find_has (has_depth depth max_depth) ordered start found) in
            let (p, run) =
              walk_back-ends (deps_of (ids_of active) active) depth ordered
                (λ b a t s e h.
                  let (on, waits) = contains-deps_of (ids_of active) active t s h in
                  ordering b a t s e on waits)
                (length ordered) start (start ∷ []) before after split
                (omega (arith, ap length split, length-append before (start ∷ after))) in
            (reverse p, ground arith)
      ]
    ]
