-- ===== src/Scenarios/Graphs.antt =====
-- The analysis of a diamond of dependencies, and of two items that wait for each other.
use arrow_kanban.Prelude.{
  ◌≡◌, refl, String, true, none, some, List, [], ◌∷◌, ◌++◌, ◌==◌, any, contains, Result, ok, err,
}
use arrow_kanban.CriticalPath.{
  ItemInfo, done_ids, active_items, add_key, add_dependencies, add_items, build_graph, ids_of,
}
use arrow_kanban.CriticalPath.Degrees.{occurs}
use arrow_kanban.CriticalPath.Rounds.{IsShuffle}
use arrow_kanban.CriticalPath.Edges.{depends}
use arrow_kanban.CriticalPath.Walk.{
  Search, Outcome, set_all_zero, start, relax, relax_all, visit, walk, kahn,
}
use arrow_kanban.CriticalPath.Analysis.{CriticalPathResult, conclude, compute_critical_path}
use arrow_kanban.CriticalPath.Results.{
  IsTraced, compute_critical_path-returns, compute_critical_path-ordered,
  occurs-compute_critical_path,
}
use arrow_kanban.CriticalPath.Cycles.{compute_critical_path-cycle}
use arrow_kanban.Prelude.{All}
use arrow_kanban.CriticalPath.Worklist.{CapabilityRouting, generate_worklist}
use arrow_kanban.CriticalPath.Worklist.Fit.{IsRouted, generate_worklist-IsRouted}

abbrev pub item : String → List String → ItemInfo
item id depends_on = record {
  id = id;
  title = "a title";
  item_type = "expedition";
  status = "backlog";
  priority = "-";
  assignee = "-";
  related = [];
  depends_on = depends_on;
  rank = none;
}

abbrev diamond : List ItemInfo
diamond =
    item "EX-4" ("EX-2" ∷ "EX-3" ∷ [])
    ∷ item "EX-2" ("EX-1" ∷ "EX-0" ∷ [])
    ∷ item "EX-3" ("EX-1" ∷ [])
    ∷ record (item "EX-0" []) { status = "done" }
    ∷ item "EX-1" []
    ∷ []

abbrev circle : List ItemInfo
circle = item "EX-1" ("EX-2" ∷ []) ∷ item "EX-2" ("EX-1" ∷ []) ∷ item "EX-3" [] ∷ []

abbrev same_order : List String → List String
same_order l = l

shuffles : IsShuffle same_order
shuffles p l = refl

abbrev nowhere : Search
nowhere = record { queue = []; ordered = []; depth = λ k. none; in_degree = λ k. none }

abbrev search_in : Outcome → Search
search_in (Outcome.finished w) = w
search_in _ = nowhere

abbrev analysis : CriticalPathResult
analysis =
    conclude same_order same_order diamond (build_graph (active_items diamond))
      (search_in (kahn same_order (build_graph (active_items diamond))))

analysed : compute_critical_path same_order same_order diamond ≡ some (ok analysis)
unfolding compute_critical_path active_items done_ids build_graph add_items add_key add_dependencies
    kahn start set_all_zero walk visit relax_all relax
analysed = refl

analysis_order : analysis.ordered ≡ ("EX-1" ∷ []) ++ "EX-2" ∷ ("EX-3" ∷ "EX-4" ∷ [])
unfolding conclude active_items done_ids build_graph add_items add_key add_dependencies kahn start
    set_all_zero walk visit relax_all relax
analysis_order = refl

one_active : contains (ids_of (active_items diamond)) "EX-1" ≡ true
unfolding active_items done_ids
one_active = refl

two_depends_on_one : depends (active_items diamond) "EX-2" "EX-1" ≡ true
unfolding active_items done_ids
two_depends_on_one = refl

compute_critical_path-returns_example :
    (r : Result (List (String × String)) CriticalPathResult) × (compute_critical_path same_order
        same_order diamond
      ≡ some r)
    × IsTraced same_order same_order shuffles r
compute_critical_path-returns_example =
    compute_critical_path-returns same_order same_order shuffles diamond

compute_critical_path-ordered_example : contains ("EX-1" ∷ []) "EX-1" ≡ true
compute_critical_path-ordered_example =
    compute_critical_path-ordered same_order same_order shuffles diamond {r = analysis}
      ("EX-1" ∷ []) ("EX-3" ∷ "EX-4" ∷ []) "EX-2" "EX-1" analysed analysis_order one_active
      two_depends_on_one

occurs-compute_critical_path_example : occurs "EX-1" analysis.ordered ≡ 1
occurs-compute_critical_path_example =
    occurs-compute_critical_path same_order same_order shuffles diamond {r = analysis} "EX-1"
      analysed one_active

abbrev reported : List (String × String)
reported = ("EX-1", "a title") ∷ ("EX-2", "a title") ∷ []

circular : compute_critical_path same_order same_order circle ≡ some (err reported)
unfolding compute_critical_path active_items done_ids build_graph add_items add_key add_dependencies
    kahn start set_all_zero walk visit relax_all relax
circular = refl

compute_critical_path-cycle_example :
    ((t : String) × (any (λ (p : String × String). p.0 == t) reported ≡ true))
    × All
        (λ (q : String × String).
          (s : String) × (depends (active_items circle) q.0 s ≡ true)
          × (any (λ (p : String × String). p.0 == s) reported ≡ true))
        reported
unfolding active_items
compute_critical_path-cycle_example =
    compute_critical_path-cycle same_order same_order shuffles circle {c = reported}
      (refl, (refl, (refl, tt))) circular

abbrev routing : CapabilityRouting
routing = record {
  item_requirements = ("EX-1", "gpu" ∷ []) ∷ [];
  agent_capabilities = ("ann", "gpu" ∷ []) ∷ [];
}

generate_worklist-IsRouted_example :
    All
      (IsRouted diamond routing analysis 2)
      (generate_worklist diamond analysis ("ann" ∷ "bob" ∷ []) routing 2)
generate_worklist-IsRouted_example =
    generate_worklist-IsRouted diamond routing analysis 2 ("ann" ∷ "bob" ∷ [])
