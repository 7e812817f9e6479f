-- ===== src/CriticalPath/Cycles.antt =====
-- src/critical_path.rs: what `compute_critical_path` reports as a cycle.
use arrow_kanban.Prelude.{
  ◌+◌, ◌≤◌, ◌<◌, ◌≡◌, ◌≢◌, refl, ap, sym, ◌∙◌, String, Bool, true, false, not, ◌&&◌, none, some,
  List, [], ◌∷◌, ◌==◌, arith, eq_iff, eq_refl, any, contains, count, length, length-append, err,
  Bool-cases, inl, inr, All, All-mono,
}
use arrow_kanban.CriticalPath.{
  ItemInfo, Graph, active_items, ids_of, add_key, add_dependencies, add_items, build_graph,
}
use arrow_kanban.CriticalPath.Degrees.{occurs, occurs-absent}
use arrow_kanban.CriticalPath.Balance.{is_waiting}
use arrow_kanban.CriticalPath.Rounds.{missing, IsShuffle, occurs-zero}
use arrow_kanban.CriticalPath.Analysis.{in_cycle, compute_critical_path}
use arrow_kanban.CriticalPath.Edges.{
  depends, missing-some, contains-add_dependencies, contains-add_key, contains-add_items,
}
use arrow_kanban.CriticalPath.Results.{ends_of, err-search, err-short, key_of_active, edge_depends}

reported-in_cycle :
    (active : List ItemInfo) (ordered : List String) (k : String)
    → any (λ (p : String × String). p.0 == k) (in_cycle active ordered)
      ≡ (contains (ids_of active) k && not (contains ordered k))
reported-in_cycle [] ordered k = refl
reported-in_cycle (i ∷ active) ordered k = elim (Bool-cases (i.id == k)) [
  | inl same ↦
      let e : i.id ≡ k = (eq_iff i.id k).0 same in
      ground (arith, reported-in_cycle active ordered k, ap (contains ordered) e)
  | inr other ↦ ground (arith, reported-in_cycle active ordered k)
]

-- No text stands in the list twice.
abbrev pub IsDistinct : List String → Type 0
IsDistinct [] = Unit
IsDistinct (x ∷ xs) = (contains xs x ≡ false) × IsDistinct xs

length-add_new :
    (id : String) (g : Graph)
    → contains g.keys id ≡ false
    → length (add_key id g).keys ≡ length g.keys + 1
unfolding add_key
length-add_new id g new = ground (arith, length-append g.keys (id ∷ []))

-- Items with distinct ids are as many keys.
length-add_distinct :
    (active : List String) (items : List ItemInfo) (g : Graph)
    → IsDistinct (ids_of items)
    → ((k : String) → contains (ids_of items) k ≡ true → contains g.keys k ≡ false)
    → length g.keys + length items ≤ length (add_items active items g).keys
unfolding add_items
length-add_distinct active [] g distinct new = omega arith
length-add_distinct active (i ∷ items) g (once, distinct) new =
    let g' = add_dependencies active i.id i.depends_on (add_key i.id g) in
    let same = contains-add_dependencies active i.depends_on i.id (add_key i.id g) in
    let fresh = new i.id (ground (arith, eq_refl i.id)) in
    omega (
      arith,
      ap length same,
      length-add_new i.id g fresh,
      length-add_distinct active items g' distinct (λ k h.
          ap (λ l. contains l k) same
          ∙ contains-add_key i.id k g
          ∙ ground (arith, new k, eq_iff i.id k, ap (contains (ids_of items)), once)),
    )

count-some :
    (p : String → Bool) (l : List String)
    → 0 < count p l
    → (k : String) × (contains l k ≡ true) × (p k ≡ true)
count-some p [] h = absurd (omega arith)
count-some p (x ∷ l) h = elim (Bool-cases (p x)) [
  | inl here ↦ (x, ground (arith, eq_refl x), here)
  | inr there ↦ let (k, on, passes) = count-some p l (ground arith) in (k, ground arith, passes)
]

All-reported :
    (c : List (String × String))
    → All (λ (q : String × String). any (λ (p : String × String). p.0 == q.0) c ≡ true) c
All-reported [] = tt
All-reported (x ∷ c) = (
  ground (arith, eq_refl x.0),
  All-mono (λ (q : String × String). any (λ (p : String × String). p.0 == q.0) c ≡ true)
      (λ (q : String × String). any (λ (p : String × String). p.0 == q.0) (x ∷ c) ≡ true)
      (λ q on. ground arith) c (All-reported c),
)

module _ (hash_order depth_order : List String → List String)
    (shuffles : IsShuffle hash_order) where
  module _ (items : List ItemInfo) where
    -- Each item that is reported depends on one that is reported.
    reported-waits :
        {c : List (String × String)} (t : String)
        → compute_critical_path hash_order depth_order items ≡ some (err c)
        → any (λ (p : String × String). p.0 == t) c ≡ true
        → (s : String) × (depends (active_items items) t s ≡ true)
          × (any (λ (p : String × String). p.0 == s) c ≡ true)
    reported-waits {c} t h reported =
        let e = ends_of hash_order depth_order shuffles items in
        let active = ids_of (active_items items) in
        let at_t = reported-in_cycle (active_items items) e.result.ordered t in
        let shown : any (λ (p : String × String). p.0 == t)
              (in_cycle (active_items items) e.result.ordered)
            ≡ true =
          rw (err-search hash_order depth_order shuffles items h) at reported in
        let known : contains active t ≡ true = ground arith in
        let unplaced : contains e.result.ordered t ≡ false = ground arith in
        let key = key_of_active hash_order depth_order shuffles items t known in
        let waiting : missing (build_graph (active_items items)).edges e.result.ordered t ≢ 0 =
          ground (
            arith,
            e.sound.place t key,
            e.sound.degree t key,
            occurs-absent e.result.ordered t unplaced,
            ap (occurs t) e.drained,
          ) in
        let (s, edge, before) =
          missing-some (build_graph (active_items items)).edges e.result.ordered t waiting in
        let (on, waits_for) = edge_depends hash_order depth_order shuffles items s t edge in
        (
          s,
          waits_for,
          rw
              (
                err-search hash_order depth_order shuffles items h,
                reported-in_cycle (active_items items) e.result.ordered s,
                on,
                before,
              )
              refl,
        )

    -- The ids of the active items being distinct, a report names an item.
    reported-some :
        {c : List (String × String)}
        → IsDistinct (ids_of (active_items items))
        → compute_critical_path hash_order depth_order items ≡ some (err c)
        → (t : String) × (any (λ (p : String × String). p.0 == t) c ≡ true)
    unfolding build_graph
    reported-some distinct h =
        let e = ends_of hash_order depth_order shuffles items in
        let active = ids_of (active_items items) in
        let short = err-short hash_order depth_order shuffles items h in
        let all_keys =
          length-add_distinct active (active_items items)
            (record { keys = []; edges = []; in_degree = λ k. none }) distinct (λ k on. refl) in
        let (k, key, waiting) =
          count-some (λ j. is_waiting (e.result.in_degree j))
            (build_graph (active_items items)).keys
            (omega (arith, e.sound.total, ap length e.drained)) in
        let on : contains active k ≡ true =
          sym (
            contains-add_items active (active_items items) k
              (record { keys = []; edges = []; in_degree = λ j. none }))
          ∙ key in
        let unplaced : contains e.result.ordered k ≡ false =
          occurs-zero e.result.ordered k (ground (arith, e.sound.place k key)) in
        (
          k,
          rw
              (
                err-search hash_order depth_order shuffles items h,
                reported-in_cycle (active_items items) e.result.ordered k,
                on,
                unplaced,
              )
              refl,
        )

    -- Where the ids of the active items are distinct, a cycle that the analysis reports has an item
    -- in it, and each item in it depends on an item in it.
    pub compute_critical_path-cycle :
        {c : List (String × String)}
        → IsDistinct (ids_of (active_items items))
        → compute_critical_path hash_order depth_order items ≡ some (err c)
        → ((t : String) × (any (λ (p : String × String). p.0 == t) c ≡ true))
          × All
              (λ (q : String × String).
                (s : String) × (depends (active_items items) q.0 s ≡ true)
                × (any (λ (p : String × String). p.0 == s) c ≡ true))
              c
    compute_critical_path-cycle {c} distinct h = (
      reported-some distinct h,
      All-mono (λ (q : String × String). any (λ (p : String × String). p.0 == q.0) c ≡ true)
          (λ (q : String × String).
            (s : String) × (depends (active_items items) q.0 s ≡ true)
            × (any (λ (p : String × String). p.0 == s) c ≡ true))
          (λ q on. reported-waits q.0 h on) c (All-reported c),
    )
