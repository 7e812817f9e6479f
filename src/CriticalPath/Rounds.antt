-- ===== src/CriticalPath/Rounds.antt =====
-- src/critical_path.rs: the start and a round of Kahn's algorithm keep its search sound.
use arrow_kanban.Prelude.{
  ℕ, suc, ◌+◌, ◌≡◌, refl, sym, ap, ◌∙◌, String, Bool, true, false, not, ◌&&◌, Option, none, some,
  List, [], ◌∷◌, ◌++◌, ◌==◌, arith, eq_iff, eq_refl, contains, count, count-append, length,
  length-append, All, All-mono, All-contains, keep, Bool-cases, inl, inr, if◌then◌else◌,
}
use arrow_kanban.CriticalPath.{Edge, Graph, dependents}
use arrow_kanban.CriticalPath.Degrees.{IsGraph, occurs, contains-append, occurs-absent, into}
use arrow_kanban.CriticalPath.Walk.{Search, is_zero, roots, set_all_zero, start, visit}
use arrow_kanban.CriticalPath.Balance.{
  waits, is_waiting, is_some, IsBalanced, IsBalanced-eq, relax_all-IsBalanced,
}

-- The edges into `k` from items that are not ordered yet.
abbrev pub missing : List Edge → List String → String → ℕ
missing es done k = count (λ (e : Edge). e.1 == k && not (contains done e.0)) es

missing-nil : (es : List Edge) (k : String) → missing es [] k ≡ into k es
missing-nil [] k = refl
missing-nil ((s, t) ∷ es) k = ground (arith, missing-nil es k)

missing-snoc :
    (es : List Edge) (done : List String) (node k : String)
    → contains done node ≡ false
    → missing es done k ≡ missing es (done ++ node ∷ []) k + occurs k (dependents es node)
missing-snoc [] done node k h = refl
missing-snoc ((s, t) ∷ es) done node k h = ground (
  arith,
  missing-snoc es done node k h,
  contains-append done (node ∷ []) s,
  eq_iff s node,
  eq_iff node s,
  eq_iff t k,
  eq_iff k t,
  ap (contains done),
)

pub occurs-zero : (xs : List String) (k : String) → occurs k xs ≡ 0 → contains xs k ≡ false
occurs-zero [] k h = refl
occurs-zero (x ∷ xs) k h = ground (arith, eq_iff k x, eq_iff x k, occurs-zero xs k)

known : (o : Option ℕ) → is_some o ≡ true → (n : ℕ) × (o ≡ some n)
known (some n) h = (n, refl)
known none h = cc

-- The state between two rounds.
abbrev pub IsSound : Graph → Search → Type 0
IsSound g w = IsBalanced g.keys (missing g.edges w.ordered) w

module _ (g : Graph) (v : IsGraph g) where
  dependents-keys :
      (es : List Edge) (node : String)
      → All (λ (e : Edge). contains g.keys e.1 ≡ true) es
      → All (λ k. contains g.keys k ≡ true) (dependents es node)
  dependents-keys [] node h = tt
  dependents-keys ((s, t) ∷ es) node h = elim (Bool-cases (s == node)) [
    | inl same ↦ rw same (h.0, dependents-keys es node h.1)
    | inr other ↦ rw other (dependents-keys es node h.1)
  ]

  -- The head of the queue is not ordered yet, and waits for nothing.
  pub head-is_free :
      (w : Search) (node : String) (rest : List String)
      → w.queue ≡ node ∷ rest
      → IsSound g w
      → (contains w.ordered node ≡ false) × (missing g.edges w.ordered node ≡ 0)
  head-is_free w node rest e b =
      let c = (rw e at b.queued).0 in
      let p = b.place node c in
      let q : occurs node w.queue ≡ suc (occurs node rest) = rw e (ground (arith, eq_refl node)) in
      let none_before : occurs node w.ordered ≡ 0 = omega arith in
      let idle : waits (w.in_degree node) ≡ 0 = omega arith in
      (occurs-zero w.ordered node none_before, ground (arith, b.degree node c))

  pub visit-IsSound :
      (w : Search) (node : String) (rest : List String)
      → w.queue ≡ node ∷ rest
      → IsSound g w
      → (w' : Search) × (visit g.edges node rest w ≡ some w')
        × IsSound g w'
        × (w'.ordered ≡ w.ordered ++ node ∷ [])
  unfolding visit
  visit-IsSound w node rest e b =
      let (fresh, free) = head-is_free w node rest e b in
      let (d, at_depth) = known (w.depth node) (rw e at b.deep).0 in
      let next = record w { queue = rest; ordered = w.ordered ++ node ∷ [] } in
      let balanced : IsBalanced g.keys
          (λ k. missing g.edges (w.ordered ++ node ∷ []) k + occurs k (dependents g.edges node))
          next =
        record {
          degree = λ k c. b.degree k c ∙ ap some (missing-snoc g.edges w.ordered node k fresh);
          place = λ k c. ground (
            arith,
            b.place k c,
            count-append (λ j. k == j) w.ordered (node ∷ []),
            ap (occurs k) e,
          );
          total = ground (arith, b.total, length-append w.ordered (node ∷ []), ap length e);
          queued = (rw e at b.queued).1;
          deep = (rw e at b.deep).1;
        } in
      let (w', run, kept, same) =
        relax_all-IsBalanced g.keys v.once d (dependents g.edges node)
          (missing g.edges (w.ordered ++ node ∷ [])) next (dependents-keys g.edges node v.ends)
          balanced in
      (
        w',
        rw (at_depth, visit) run,
        IsBalanced-eq g.keys v.once (missing g.edges (w.ordered ++ node ∷ []))
            (missing g.edges w'.ordered) w' (λ k. ap (λ l. missing g.edges l k) (sym same)) kept,
        same,
      )

-- Iterating a HashMap gives each of its keys once, in any order.
abbrev pub IsShuffle : (List String → List String) → Type 0
IsShuffle h = (p : String → Bool) (l : List String) → count p (h l) ≡ count p l

length-keep : (p : String → Bool) (l : List String) → length (keep p l) ≡ count p l
length-keep p [] = refl
length-keep p (x ∷ l) = ground (arith, length-keep p l)

occurs-keep :
    (p : String → Bool) (k : String) (l : List String)
    → occurs k (keep p l) ≡ (if p k then occurs k l else 0)
occurs-keep p k [] = ground arith
occurs-keep p k (x ∷ l) = elim (Bool-cases (k == x)) [
  | inl t ↦ ground (arith, occurs-keep p k l, ap p ((eq_iff k x).0 t))
  | inr f ↦ ground (arith, occurs-keep p k l)
]

All-keep : (P : String → Type 0) (p : String → Bool) (l : List String) → All P l → All P (keep p l)
All-keep P p [] h = tt
All-keep P p (x ∷ l) h = elim (Bool-cases (p x)) [
  | inl t ↦ rw t (h.0, All-keep P p l h.1)
  | inr f ↦ rw f (All-keep P p l h.1)
]

zero_or_waiting :
    (f : String → Option ℕ) (l : List String)
    → All (λ k. is_some (f k) ≡ true) l
    → count (λ k. is_zero (f k)) l + count (λ k. is_waiting (f k)) l ≡ length l
zero_or_waiting f [] h = omega arith
zero_or_waiting f (k ∷ l) h = ground (arith, zero_or_waiting f l h.1, h.0)

is_some-set_all_zero :
    (q : List String) (k : String) → contains q k ≡ true → is_some (set_all_zero q k) ≡ true
unfolding set_all_zero
is_some-set_all_zero [] k h = cc
is_some-set_all_zero (x ∷ q) k h = ground (arith, is_some-set_all_zero q k)

module _ (hash_order : List String → List String) (shuffles : IsShuffle hash_order) (g : Graph)
    (v : IsGraph g) where
  shuffled-keys : (k : String) → contains (hash_order g.keys) k ≡ true → contains g.keys k ≡ true
  shuffled-keys k h = elim (Bool-cases (contains g.keys k)) [
    | inl t ↦ t
    | inr f ↦
        let e : occurs k (hash_order g.keys) ≡ 0 =
          shuffles (λ j. k == j) g.keys ∙ occurs-absent g.keys k f in
        cc (occurs-zero (hash_order g.keys) k e)
  ]

  pub start-IsSound : IsSound g (start hash_order g)
  unfolding start
  start-IsSound =
      let q = roots g (hash_order g.keys) in
      record {
        degree = λ k c. v.degree k c ∙ ap some (sym (missing-nil g.edges k));
        place = λ k c. ground (
          arith,
          occurs-keep (λ j. is_zero (g.in_degree j)) k (hash_order g.keys),
          shuffles (λ j. k == j) g.keys,
          v.once k c,
          v.degree k c,
        );
        total = ground (
          arith,
          length-keep (λ j. is_zero (g.in_degree j)) (hash_order g.keys),
          shuffles (λ j. is_zero (g.in_degree j)) g.keys,
          zero_or_waiting g.in_degree g.keys (
              All-mono (λ k. contains g.keys k ≡ true) (λ k. is_some (g.in_degree k) ≡ true)
                (λ k c. rw (v.degree k c) refl) g.keys (All-contains g.keys)),
        );
        queued =
            All-keep (λ k. contains g.keys k ≡ true) (λ j. is_zero (g.in_degree j))
              (hash_order g.keys)
              (All-mono (λ k. contains (hash_order g.keys) k ≡ true) (λ k. contains g.keys k ≡ true)
                shuffled-keys (hash_order g.keys) (All-contains (hash_order g.keys)));
        deep =
            All-mono (λ k. contains q k ≡ true) (λ k. is_some (set_all_zero q k) ≡ true)
              (is_some-set_all_zero q) q (All-contains q);
      }
