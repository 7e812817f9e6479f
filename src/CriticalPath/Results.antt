-- ===== src/CriticalPath/Results.antt =====
-- src/critical_path.rs: what `compute_critical_path` returns.
use arrow_kanban.Prelude.{
  ◌≤◌, ◌<◌, ◌≡◌, ap, sym, ◌∙◌, String, Bool, true, false, none, some, List, [], ◌∷◌, ◌++◌, ◌==◌,
  arith, eq_iff, contains, count, length, ltb, Result, ok, err, Bool-cases, inl, inr,
}
use arrow_kanban.CriticalPath.{ItemInfo, active_items, ids_of, build_graph}
use arrow_kanban.CriticalPath.Degrees.{build_graph-IsGraph, occurs}
use arrow_kanban.CriticalPath.Balance.{is_waiting}
use arrow_kanban.CriticalPath.Rounds.{IsShuffle}
use arrow_kanban.CriticalPath.Order.{Ends, kahn-Ends, Backs, Backs-split}
use arrow_kanban.CriticalPath.Walk.{Search, kahn}
use arrow_kanban.CriticalPath.Analysis.{
  CriticalPathResult, in_cycle, conclude, compute_critical_path,
}
use arrow_kanban.CriticalPath.Trace.{trace_longest_path-ends}
use arrow_kanban.CriticalPath.Edges.{
  has_edge, depends, add_items-edge, missing-edge, contains-add_items, length-add_items,
  add_items_sound,
}

count-zero :
    (p : String → Bool) (l : List String) (k : String)
    → count p l ≡ 0
    → contains l k ≡ true
    → p k ≡ false
count-zero p [] k z h = cc
count-zero p (x ∷ l) k z h = elim (Bool-cases (x == k)) [
  | inl same ↦ let e : x ≡ k = (eq_iff x k).0 same in rw (← e) (ground arith)
  | inr other ↦ count-zero p l k (ground arith) (ground arith)
]

module _ (hash_order depth_order : List String → List String)
    (shuffles : IsShuffle hash_order) where
  -- The search of the analysis at its end.
  abbrev pub search_of : List ItemInfo → Search
  search_of items =
      (kahn-Ends (build_graph (active_items items)) (build_graph-IsGraph (active_items items))
        hash_order shuffles).result

  abbrev pub ends_of :
      (items : List ItemInfo)
      → Ends
          (build_graph (active_items items))
          (build_graph-IsGraph (active_items items))
          (kahn hash_order (build_graph (active_items items)))
  ends_of items =
      kahn-Ends (build_graph (active_items items)) (build_graph-IsGraph (active_items items))
        hash_order shuffles

  search-ordered :
      (items : List ItemInfo) (before after : List String) (t s : String)
      → (search_of items).ordered ≡ before ++ t ∷ after
      → contains (ids_of (active_items items)) s ≡ true
      → depends (active_items items) t s ≡ true
      → contains before s ≡ true
  unfolding build_graph
  search-ordered items before after t s split active waits_for =
      let b : Backs (build_graph (active_items items)).edges [] (before ++ t ∷ after) =
        rw (← split) (ends_of items).backs in
      missing-edge (build_graph (active_items items)).edges before s t
        (add_items-edge (ids_of (active_items items)) (active_items items) s t _ active waits_for)
        (Backs-split (build_graph (active_items items)).edges [] before after t b)

  -- Of a result, that its longest path was traced to the end.
  abbrev pub IsTraced : Result (List (String × String)) CriticalPathResult → Type 0
  IsTraced (ok r) = (path : List String) × (r.longest_path ≡ some path)
  IsTraced (err reported) = Unit

  IsTraced-conclude :
      (items : List ItemInfo)
      → (path : List String) × ((conclude hash_order depth_order items
            (build_graph (active_items items))
            (search_of items)).longest_path
          ≡ some path)
  unfolding conclude
  IsTraced-conclude items =
      trace_longest_path-ends (search_of items).ordered (search_of items).depth (active_items items)
        _ (search-ordered items)

  -- In whatever order its map is iterated, the analysis of any items ends without a panic, in a
  -- result or in an error: Kahn's loop needs no more rounds than there are keys, and in a result
  -- the loop that traces the longest path has ended, after at most as many rounds as there are
  -- ordered items.
  pub compute_critical_path-returns :
      (items : List ItemInfo)
      → (r : Result (List (String × String)) CriticalPathResult) × (compute_critical_path hash_order
            depth_order items
          ≡ some r)
        × IsTraced r
  unfolding compute_critical_path
  compute_critical_path-returns items =
      let active = active_items items in
      let w = search_of items in
      elim (Bool-cases (ltb (length w.ordered) (length active))) [
        | inl short ↦ (err (in_cycle active w.ordered), ground (arith, (ends_of items).returns), tt)
        | inr full ↦ (
          ok (conclude hash_order depth_order items (build_graph active) w),
          ground (arith, (ends_of items).returns),
          IsTraced-conclude items,
        )
      ]

  module _ (items : List ItemInfo) where
    ok-search :
        {r : CriticalPathResult}
        → compute_critical_path hash_order depth_order items ≡ some (ok r)
        → (r.ordered ≡ (search_of items).ordered)
          × (length (active_items items) ≤ length (search_of items).ordered)
    unfolding compute_critical_path conclude
    ok-search h = ground (arith, (ends_of items).returns)

    pub err-search :
        {c : List (String × String)}
        → compute_critical_path hash_order depth_order items ≡ some (err c)
        → c ≡ in_cycle (active_items items) (search_of items).ordered
    unfolding compute_critical_path
    err-search h = ground (arith, (ends_of items).returns)

    -- In the order that the analysis returns, an active item that an active item depends on stands
    -- before it.
    pub compute_critical_path-ordered :
        {r : CriticalPathResult} (before after : List String) (t s : String)
        → compute_critical_path hash_order depth_order items ≡ some (ok r)
        → r.ordered ≡ before ++ t ∷ after
        → contains (ids_of (active_items items)) s ≡ true
        → depends (active_items items) t s ≡ true
        → contains before s ≡ true
    compute_critical_path-ordered {r} before after t s h split active waits_for =
        let (same, _) = ok-search h in
        search-ordered items before after t s (sym same ∙ split) active waits_for

    pub err-short :
        {c : List (String × String)}
        → compute_critical_path hash_order depth_order items ≡ some (err c)
        → length (search_of items).ordered < length (active_items items)
    unfolding compute_critical_path
    err-short h = ground (arith, (ends_of items).returns)

    pub key_of_active :
        (k : String)
        → contains (ids_of (active_items items)) k ≡ true
        → contains (build_graph (active_items items)).keys k ≡ true
    unfolding build_graph
    key_of_active k active =
        contains-add_items (ids_of (active_items items)) (active_items items) k _ ∙ active

    pub edge_depends :
        (s t : String)
        → has_edge s t (build_graph (active_items items)).edges ≡ true
        → (contains (ids_of (active_items items)) s ≡ true)
          × (depends (active_items items) t s ≡ true)
    unfolding build_graph
    edge_depends s t h =
        elim (add_items_sound (ids_of (active_items items)) (active_items items) s t
          (record { keys = []; edges = []; in_degree = λ k. none }) h) [
            | inl nothing ↦ cc
            | inr both ↦ both
          ]

    no_more_keys : length (build_graph (active_items items)).keys ≤ length (active_items items)
    unfolding build_graph
    no_more_keys = omega (
      arith,
      length-add_items (ids_of (active_items items)) (active_items items)
          (record { keys = []; edges = []; in_degree = λ k. none }),
    )

    -- Each active item stands in the order that the analysis returns exactly once.
    pub occurs-compute_critical_path :
        {r : CriticalPathResult} (k : String)
        → compute_critical_path hash_order depth_order items ≡ some (ok r)
        → contains (ids_of (active_items items)) k ≡ true
        → occurs k r.ordered ≡ 1
    occurs-compute_critical_path k h active =
        let e = ends_of items in
        let (same, full) = ok-search h in
        let key = key_of_active k active in
        let none_wait : count (λ j. is_waiting (e.result.in_degree j))
              (build_graph (active_items items)).keys
            ≡ 0 =
          omega (arith, e.sound.total, ap length e.drained, no_more_keys) in
        let idle =
          count-zero (λ j. is_waiting (e.result.in_degree j))
            (build_graph (active_items items)).keys k none_wait key in
        ground (
          arith,
          ap (occurs k) same,
          e.sound.place k key,
          ap (occurs k) e.drained,
          e.sound.degree k key,
          idle,
        )
