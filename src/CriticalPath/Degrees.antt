-- ===== src/CriticalPath/Degrees.antt =====
-- src/critical_path.rs: the graph that is built counts what each item waits for.
use arrow_kanban.Prelude.{
  ℕ, suc, ◌≡◌, refl, ap, String, true, false, ◌||◌, none, some, List, [], ◌∷◌, ◌++◌, ◌==◌, arith,
  eq_iff, eq_refl, contains, count, count-append, All, All-append, All-mono, Bool-cases, inl, inr,
}
use arrow_kanban.CriticalPath.{
  ItemInfo, Edge, Graph, set, or_zero, add_key, add_dependencies, add_items, build_graph, ids_of,
}

-- How often a text stands in a list.
abbrev pub occurs : String → List String → ℕ
occurs k = count (λ j. k == j)

pub contains-append :
    (xs ys : List String) (k : String) → contains (xs ++ ys) k ≡ (contains xs k || contains ys k)
contains-append [] ys k = refl
contains-append (x ∷ xs) ys k = ground (arith, contains-append xs ys k)

pub occurs-absent : (xs : List String) (k : String) → contains xs k ≡ false → occurs k xs ≡ 0
occurs-absent [] k h = refl
occurs-absent (x ∷ xs) k h = ground (arith, eq_iff k x, eq_iff x k, occurs-absent xs k)

-- The edges into an item.
abbrev pub into : String → List Edge → ℕ
into k = count (λ (e : Edge). e.1 == k)

-- The keys do not repeat, each edge ends in one, and each has the number of its edges as degree.
pub record IsGraph (g : Graph) : Type 0 where
  pub once : (k : String) → contains g.keys k ≡ true → occurs k g.keys ≡ 1
  pub ends : All (λ (e : Edge). contains g.keys e.1 ≡ true) g.edges
  pub degree : (k : String) → contains g.keys k ≡ true → g.in_degree k ≡ some (into k g.edges)

into-absent :
    (keys : List String) (es : List Edge) (k : String)
    → All (λ (e : Edge). contains keys e.1 ≡ true) es
    → contains keys k ≡ false
    → into k es ≡ 0
into-absent keys [] k h a = refl
into-absent keys ((s, t) ∷ es) k h a =
    ground (arith, eq_iff t k, into-absent keys es k h.1 a, h.0, ap (contains keys))

new_key-once :
    (keys : List String) (id k : String)
    → contains keys id ≡ false
    → (contains keys k ≡ true → occurs k keys ≡ 1)
    → contains (keys ++ id ∷ []) k ≡ true
    → occurs k (keys ++ id ∷ []) ≡ 1
new_key-once keys id k f old h = elim (Bool-cases (k == id)) [
  | inl t ↦
      let e : k ≡ id = (eq_iff k id).0 t in
      rw e (
        ground
          (arith, count-append (λ j. id == j) keys (id ∷ []), occurs-absent keys id f, eq_refl id))
  | inr d ↦ ground (
    arith,
    count-append (λ j. k == j) keys (id ∷ []),
    contains-append keys (id ∷ []) k,
    eq_iff id k,
    eq_iff k id,
    old,
  )
]

add_key-IsGraph : (id : String) (g : Graph) → IsGraph g → IsGraph (add_key id g)
unfolding add_key
add_key-IsGraph id g v = elim (Bool-cases (contains g.keys id)) [
  | inl t ↦ rw (t, add_key) v
  | inr f ↦
      rw (f, add_key)
        (record {
          once = λ k h. new_key-once g.keys id k f (v.once k) h;
          ends =
              All-mono (λ (e : Edge). contains g.keys e.1 ≡ true)
                (λ (e : Edge). contains (g.keys ++ id ∷ []) e.1 ≡ true)
                (λ e h. ground (arith, contains-append g.keys (id ∷ []) e.1)) g.edges v.ends;
          degree = λ k h. elim (Bool-cases (id == k)) [
            | inl t ↦
                let e : id ≡ k = (eq_iff id k).0 t in
                ground (arith, into-absent g.keys g.edges k v.ends (rw e at f))
            | inr d ↦ ground (arith, contains-append g.keys (id ∷ []) k, v.degree k)
          ];
        })
]

add_edge-IsGraph :
    (g : Graph) (dep id : String)
    → contains g.keys id ≡ true
    → IsGraph g
    → IsGraph (record g {
      edges = g.edges ++ (dep, id) ∷ [];
      in_degree = set g.in_degree id (suc (or_zero (g.in_degree id)));
    })
add_edge-IsGraph g dep id h v = record {
  once = v.once;
  ends =
      All-append (λ (e : Edge). contains g.keys e.1 ≡ true) g.edges ((dep, id) ∷ []) v.ends (h, tt);
  degree = λ k m. elim (Bool-cases (id == k)) [
    | inl t ↦
        let e : id ≡ k = (eq_iff id k).0 t in
        ground (
          arith,
          count-append (λ (e : Edge). e.1 == k) g.edges ((dep, id) ∷ []),
          v.degree id h,
          ap (λ j. into j g.edges) e,
        )
    | inr d ↦
        ground (arith, count-append (λ (e : Edge). e.1 == k) g.edges ((dep, id) ∷ []), v.degree k m)
  ];
}

add_dependencies-IsGraph :
    (active deps : List String) (id : String) (g : Graph)
    → contains g.keys id ≡ true
    → IsGraph g
    → IsGraph (add_dependencies active id deps g)
unfolding add_dependencies
add_dependencies-IsGraph active [] id g h v = v
add_dependencies-IsGraph active (dep ∷ deps) id g h v = elim (Bool-cases (contains active dep)) [
  | inl t ↦
      rw (t, add_dependencies)
        (add_dependencies-IsGraph active deps id _ h (add_edge-IsGraph g dep id h v))
  | inr f ↦ rw (f, add_dependencies) (add_dependencies-IsGraph active deps id g h v)
]

contains-add_key : (id : String) (g : Graph) → contains (add_key id g).keys id ≡ true
unfolding add_key
contains-add_key id g = ground (arith, contains-append g.keys (id ∷ []) id, eq_refl id)

add_items-IsGraph :
    (active : List String) (items : List ItemInfo) (g : Graph)
    → IsGraph g
    → IsGraph (add_items active items g)
unfolding add_items
add_items-IsGraph active [] g v = v
add_items-IsGraph active (i ∷ items) g v = add_items-IsGraph active items _ (
    add_dependencies-IsGraph active i.depends_on i.id (add_key i.id g) (contains-add_key i.id g)
      (add_key-IsGraph i.id g v))

pub build_graph-IsGraph : (active : List ItemInfo) → IsGraph (build_graph active)
unfolding build_graph
build_graph-IsGraph active =
    add_items-IsGraph (ids_of active) active
      (record { keys = []; edges = []; in_degree = λ k. none })
      (record { once = λ k h. cc; ends = tt; degree = λ k h. cc })
