-- ===== src/CriticalPath/Analysis.antt =====
-- src/critical_path.rs: `compute_critical_path` whole.
--
-- `hash_order` and `depth_order` are the orders in which the HashMaps `in_degree` and `depth` give
-- their keys. A map that is only read is a function, and a set is a list without repeats.
use arrow_kanban.Prelude.{
  ℕ, zero, suc, String, Bool, false, not, Option, none, some, List, [], ◌∷◌, ◌++◌, ◌==◌, map, keep,
  any, find, contains, if◌then◌else◌, Result, ok, err, ltb, leb, eqb, length,
}
use mathlib.Core.List.{reverse}
use arrow_kanban.CriticalPath.{
  ItemInfo, Edge, Graph, set, or_zero, active_items, ids_of, build_graph, dependents,
}
use arrow_kanban.CriticalPath.Keys.{sort_by, by_key}
use arrow_kanban.CriticalPath.Walk.{Search, finished, panicked, out_of_fuel, kahn}

pub record CriticalPathResult : Type 0 where
  pub ordered : List String
  pub depth : String → Option ℕ
  -- the items of each depth
  pub depth_groups : ℕ → List String
  -- `none` if `trace_longest_path` ran out of fuel
  pub longest_path : Option (List String)
  pub ready : List String
  pub blocked : List String
  pub downstream_count : String → Option ℕ

-- The sets of items downstream, `none` where none is computed yet.
abbrev pub Memo : Type 0
Memo = String → Option (List String)

abbrev pub insert_new : String → List String → List String
insert_new x s = if contains s x then s else s ++ x ∷ []

abbrev pub extend : List String → List String → List String
extend s [] = s
extend s (x ∷ xs) = extend (insert_new x s) xs

abbrev pub or_empty : Option (List String) → List String
or_empty (some s) = s
or_empty none = []

-- The loop over the dependents of one item.
unfoldable pub downstream_set : Memo → List String → List String → List String
downstream_set memo s [] = s
downstream_set memo s (d ∷ ds) =
    downstream_set memo (extend (insert_new d s) (or_empty (memo d))) ds

unfoldable pub downstream_sets : List Edge → List String → Memo → Memo
unfolding downstream_set
downstream_sets edges [] memo = memo
downstream_sets edges (id ∷ ids) memo =
    downstream_sets edges ids (set memo id (downstream_set memo [] (dependents edges id)))

-- The dependencies of an item that are active.
abbrev pub active_deps : List String → ItemInfo → List String
active_deps active i = keep (contains active) i.depends_on

-- `deps_of`: the last item with an id counts.
unfoldable pub deps_of : List String → List ItemInfo → String → List String
deps_of active [] id = []
deps_of active (i ∷ items) id =
    let later = deps_of active items id in
    if contains (ids_of items) id then later else if i.id == id then active_deps active i else []

-- `max_by_key`: the last of those with the largest depth.
abbrev pub deepest_of : (String → Option ℕ) → String → List String → String
deepest_of depth best [] = best
deepest_of depth best (d ∷ ds) =
    deepest_of depth (if leb (or_zero (depth best)) (or_zero (depth d)) then d else best) ds

-- The `loop`: from `current` back, the path as it is pushed.
unfoldable pub walk_back :
    (String → List String) → (String → Option ℕ) → ℕ → String → List String → Option (List String)
walk_back deps depth zero current path = none
walk_back deps depth (suc fuel) current path = elim (deps current) [
  | [] ↦ some path
  | d ∷ ds ↦ let next = deepest_of depth d ds in walk_back deps depth fuel next (path ++ next ∷ [])
]

abbrev pub has_depth : (String → Option ℕ) → ℕ → String → Bool
has_depth depth n id = elim (depth id) [ some m ↦ eqb m n | none ↦ false ]

-- The loop on as much fuel as there are ordered items.
unfoldable pub trace_longest_path :
    List String → (String → Option ℕ) → List ItemInfo → ℕ → Option (List String)
unfolding deps_of walk_back
trace_longest_path ordered depth active max_depth =
    if eqb max_depth 0 then some [] else (elim (find (has_depth depth max_depth) ordered) [
      | none ↦ some []
      | some start ↦
          elim (walk_back (deps_of (ids_of active) active) depth (length ordered) start
            (start ∷ [])) [ some path ↦ some (reverse path) | none ↦ none ]
    ])

abbrev pub max_depth_of : (String → Option ℕ) → List String → ℕ
max_depth_of depth [] = 0
max_depth_of depth (id ∷ ids) =
    let rest = max_depth_of depth ids in
    if leb (or_zero (depth id)) rest then rest else or_zero (depth id)

abbrev pub has_unmet : List String → ItemInfo → Bool
has_unmet active i = any (contains active) i.depends_on

-- The id and the title of each active item that is not ordered.
abbrev pub in_cycle : List ItemInfo → List String → List (String × String)
in_cycle active ordered =
    map (λ (i : ItemInfo). (i.id, i.title))
      (keep (λ (i : ItemInfo). not (contains ordered i.id)) active)

module _ (hash_order depth_order : List String → List String) where
  unfoldable pub conclude : List ItemInfo → Graph → Search → CriticalPathResult
  unfolding downstream_sets trace_longest_path
  conclude items g w =
      let active = active_items items in
      let keys = depth_order g.keys in
      record {
        ordered = w.ordered;
        depth = w.depth;
        depth_groups = λ n. sort_by (by_key items) (keep (has_depth w.depth n) keys);
        longest_path = trace_longest_path w.ordered w.depth active (max_depth_of w.depth keys);
        ready =
            sort_by (by_key items)
              (ids_of (keep (λ (i : ItemInfo). not (has_unmet (ids_of active) i)) active));
        blocked = ids_of (keep (has_unmet (ids_of active)) active);
        downstream_count = λ id. elim (downstream_sets g.edges (reverse w.ordered) (λ k. none) id) [
          | some s ↦ some (length s)
          | none ↦ none
        ];
      }

  -- `none` if the loop panicked or ran out of fuel. The error is the ids and titles of the cycle.
  unfoldable pub compute_critical_path :
      List ItemInfo → Option (Result (List (String × String)) CriticalPathResult)
  unfolding active_items build_graph kahn conclude
  compute_critical_path items =
      let active = active_items items in
      elim (kahn hash_order (build_graph active)) [
        | finished w ↦
            if ltb (length w.ordered) (length active)
            then some (err (in_cycle active w.ordered))
            else some (ok (conclude items (build_graph active) w))
        | panicked ↦ none
        | out_of_fuel ↦ none
      ]
