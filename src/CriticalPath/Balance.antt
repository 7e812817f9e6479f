-- ===== src/CriticalPath/Balance.antt =====
-- src/critical_path.rs: the loop over the dependents of a node keeps the search balanced.
use arrow_kanban.Prelude.{
  ℕ, suc, ◌+◌, ◌%◌, ◌^◌, ◌≡◌, refl, ap, ◌∙◌, String, Bool, true, false, not, ◌&&◌, Option, none,
  some, List, [], ◌∷◌, ◌++◌, ◌==◌, arith, eq_iff, eq_refl, contains, count, count-append, length,
  length-append, All, All-append, All-mono, Bool-cases, inl, inr, if◌then◌else◌, eqb,
}
use arrow_kanban.CriticalPath.{set}
use arrow_kanban.CriticalPath.Degrees.{occurs}
use arrow_kanban.CriticalPath.Walk.{Search, deepen, relax, relax_all}

-- 1 where the degree is not 0.
abbrev pub waits : Option ℕ → ℕ
waits (some n) = if eqb n 0 then 0 else 1
waits none = 0

abbrev pub is_waiting : Option ℕ → Bool
is_waiting (some n) = not (eqb n 0)
is_waiting none = false

abbrev pub is_some : Option ℕ → Bool
is_some (some n) = true
is_some none = false

-- The state of a search over `keys` in which `need` is what each key still waits for: every key is
-- ordered, queued or waiting, and one of these only.
pub record IsBalanced (keys : List String) (need : String → ℕ) (w : Search) : Type 0 where
  pub degree : (k : String) → contains keys k ≡ true → w.in_degree k ≡ some (need k)
  pub place :
      (k : String)
      → contains keys k ≡ true
      → occurs k w.ordered + occurs k w.queue + waits (w.in_degree k) ≡ 1
  pub total :
      length w.ordered + length w.queue + count (λ k. is_waiting (w.in_degree k)) keys ≡ length keys
  pub queued : All (λ k. contains keys k ≡ true) w.queue
  pub deep : All (λ k. is_some (w.depth k) ≡ true) w.queue

count-set :
    (keys : List String) (f : String → Option ℕ) (t : String) (n : ℕ)
    → f t ≡ some (suc n)
    → count (λ k. is_waiting (set f t n k)) keys + (if eqb n 0 then occurs t keys else 0)
      ≡ count (λ k. is_waiting (f k)) keys
count-set [] f t n h = ground arith
count-set (k ∷ keys) f t n h = elim (Bool-cases (t == k)) [
  | inl same ↦ ground (arith, count-set keys f t n h, ap f ((eq_iff t k).0 same))
  | inr other ↦ ground (arith, count-set keys f t n h)
]

-- A queue that `t` is pushed on under a test.
abbrev push_if : Bool → List String → String → List String
push_if b q t = if b then q ++ t ∷ [] else q

occurs-push_if :
    (b : Bool) (k t : String) (q : List String)
    → occurs k (push_if b q t) ≡ occurs k q + (if b && k == t then 1 else 0)
occurs-push_if true k t q = ground (arith, count-append (λ j. k == j) q (t ∷ []))
occurs-push_if false k t q = omega arith

length-push_if :
    (b : Bool) (t : String) (q : List String)
    → length (push_if b q t) ≡ length q + (if b then 1 else 0)
length-push_if true t q = ground (arith, length-append q (t ∷ []))
length-push_if false t q = omega arith

All-push_if :
    (P : String → Type 0) (b : Bool) (t : String) (q : List String)
    → P t
    → All P q
    → All P (push_if b q t)
All-push_if P true t q h a = All-append P q (t ∷ []) a (h, tt)
All-push_if P false t q h a = a

is_some-deepen :
    (d : ℕ) (depth : String → Option ℕ) (t k : String)
    → is_some (depth k) ≡ true
    → is_some (deepen d depth t k) ≡ true
is_some-deepen d depth t k h = ground arith

module _ (keys : List String)
    (once : (k : String) → contains keys k ≡ true → occurs k keys ≡ 1) where
  -- What `relax` makes of a search in which `t` waits for n + 1 edges.
  abbrev relaxed : ℕ → ℕ → String → Search → Search
  relaxed d n t w = record w {
    depth = deepen d w.depth t;
    in_degree = set w.in_degree t n;
    queue = push_if (eqb n 0) w.queue t;
  }

  abbrev one_more : (String → ℕ) → String → String → ℕ
  one_more need t k = need k + (if k == t then 1 else 0)

  relaxed-IsBalanced :
      (d n : ℕ) (t : String) (need : String → ℕ) (w : Search)
      → contains keys t ≡ true
      → w.in_degree t ≡ some (suc n)
      → need t ≡ n
      → IsBalanced keys (one_more need t) w
      → IsBalanced keys need (relaxed d n t w)
  relaxed-IsBalanced d n t need w h e m b = record {
    degree = λ k c. elim (Bool-cases (t == k)) [
      | inl same ↦ let q : t ≡ k = (eq_iff t k).0 same in ground (arith, ap need q)
      | inr other ↦ ground (arith, eq_iff k t, eq_iff t k, b.degree k c)
    ];
    place = λ k c. elim (Bool-cases (t == k)) [
      | inl same ↦
          let q : t ≡ k = (eq_iff t k).0 same in
          ground
            (arith, occurs-push_if (eqb n 0) k t w.queue, b.place k c, ap w.in_degree q, eq_iff k t)
      | inr other ↦
          ground (arith, occurs-push_if (eqb n 0) k t w.queue, b.place k c, eq_iff k t, eq_iff t k)
    ];
    total = ground (
      arith,
      length-push_if (eqb n 0) t w.queue,
      count-set keys w.in_degree t n e,
      once t h,
      b.total,
    );
    queued = All-push_if (λ k. contains keys k ≡ true) (eqb n 0) t w.queue h b.queued;
    deep =
        All-push_if (λ k. is_some (deepen d w.depth t k) ≡ true) (eqb n 0) t w.queue
          (ground (arith, eq_refl t))
          (All-mono (λ k. is_some (w.depth k) ≡ true) (λ k. is_some (deepen d w.depth t k) ≡ true)
            (is_some-deepen d w.depth t) w.queue b.deep);
  }

  pub IsBalanced-eq :
      (f g : String → ℕ) (w : Search)
      → ((k : String) → f k ≡ g k)
      → IsBalanced keys f w
      → IsBalanced keys g w
  IsBalanced-eq f g w h b = record {
    degree = λ k c. b.degree k c ∙ ap some (h k);
    place = b.place;
    total = b.total;
    queued = b.queued;
    deep = b.deep;
  }

  relax-step :
      (d n : ℕ) (t : String) (w : Search)
      → w.in_degree t ≡ some (suc n)
      → relax d t w ≡ some (relaxed ((d + 1) % 2 ^ 32) n t w)
  unfolding relax
  relax-step d n t w e = rw (e, relax) refl

  relax_all-step :
      (d n : ℕ) (t : String) (ts : List String) (w : Search)
      → w.in_degree t ≡ some (suc n)
      → relax_all d (t ∷ ts) w ≡ relax_all d ts (relaxed ((d + 1) % 2 ^ 32) n t w)
  unfolding relax_all relax
  relax_all-step d n t ts w e = rw (relax-step d n t w e, relax_all) refl

  pub relax_all-IsBalanced :
      (d : ℕ) (ts : List String) (need : String → ℕ) (w : Search)
      → All (λ k. contains keys k ≡ true) ts
      → IsBalanced keys (λ k. need k + occurs k ts) w
      → (w' : Search) × (relax_all d ts w ≡ some w')
        × IsBalanced keys need w'
        × (w'.ordered ≡ w.ordered)
  unfolding relax_all relax
  relax_all-IsBalanced d [] need w h b =
      (w, refl, IsBalanced-eq (λ k. need k + 0) need w (λ k. omega arith) b, refl)
  relax_all-IsBalanced d (t ∷ ts) need w h b =
      let n = need t + occurs t ts in
      let e : w.in_degree t ≡ some (suc n) = ground (arith, b.degree t h.0, eq_refl t) in
      let deeper = (d + 1) % 2 ^ 32 in
      let kept =
        relaxed-IsBalanced deeper n t (λ k. need k + occurs k ts) w h.0 e refl
          (IsBalanced-eq (λ k. need k + occurs k (t ∷ ts)) (one_more (λ k. need k + occurs k ts) t)
            w (λ k. ground arith) b) in
      let (w', run, balanced, same) =
        relax_all-IsBalanced d ts need (relaxed deeper n t w) h.1 kept in
      (w', relax_all-step d n t ts w e ∙ run, balanced, same)
