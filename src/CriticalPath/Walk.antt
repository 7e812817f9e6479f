-- ===== src/CriticalPath/Walk.antt =====
-- src/critical_path.rs: Kahn's algorithm, as in `compute_critical_path`.
--
-- The order in which a HashMap gives its keys is the parameter `hash_order`. Every panic of the loop
-- (a missing key, a count below zero) is an outcome. A depth is a u32.
use arrow_kanban.Prelude.{
  ℕ, zero, suc, ◌+◌, ◌%◌, ◌^◌, String, Bool, false, Option, none, some, List, [], ◌∷◌, ◌++◌, keep,
  if◌then◌else◌, ltb, eqb, length,
}
use arrow_kanban.CriticalPath.{Graph, Edge, set, or_zero, dependents}

pub record Search : Type 0 where
  pub queue : List String
  pub ordered : List String
  pub depth : String → Option ℕ
  pub in_degree : String → Option ℕ

-- `Some(0)`
abbrev pub is_zero : Option ℕ → Bool
is_zero (some n) = eqb n 0
is_zero none = false

-- The keys of degree 0 are queued, at depth 0.
abbrev pub roots : Graph → List String → List String
roots g ids = keep (λ k. is_zero (g.in_degree k)) ids

unfoldable pub set_all_zero : List String → String → Option ℕ
set_all_zero [] = λ k. none
set_all_zero (id ∷ ids) = set (set_all_zero ids) id 0

unfoldable pub start : (List String → List String) → Graph → Search
unfolding set_all_zero
start hash_order g =
    let queue = roots g (hash_order g.keys) in
    record { queue = queue; ordered = []; depth = set_all_zero queue; in_degree = g.in_degree }

-- `if new_depth > *current { *current = new_depth }` at the entry of `dep`, or 0.
abbrev pub deepen : ℕ → (String → Option ℕ) → String → String → Option ℕ
deepen new depth dep =
    set depth dep (if ltb (or_zero (depth dep)) new then new else or_zero (depth dep))

-- The body of the loop over the dependents, at the depth of the node.
unfoldable pub relax : ℕ → String → Search → Option Search
relax node_depth dep w = elim (w.in_degree dep) [
  | none ↦ none
  | some zero ↦ none
  | some (suc n) ↦ some (record w {
    depth = deepen ((node_depth + 1) % 2 ^ 32) w.depth dep;
    in_degree = set w.in_degree dep n;
    queue = if eqb n 0 then w.queue ++ dep ∷ [] else w.queue;
  })
]

unfoldable pub relax_all : ℕ → List String → Search → Option Search
unfolding relax
relax_all node_depth [] w = some w
relax_all node_depth (dep ∷ deps) w = elim (relax node_depth dep w) [
  | none ↦ none
  | some w' ↦ relax_all node_depth deps w'
]

-- One round of the `while let`, after `node` left the head of the queue.
unfoldable pub visit : List Edge → String → List String → Search → Option Search
unfolding relax_all
visit edges node rest w = elim (w.depth node) [
  | none ↦ none
  | some d ↦
      relax_all d (dependents edges node)
        (record w { queue = rest; ordered = w.ordered ++ node ∷ [] })
]

pub data Outcome : Type 0 where
  finished : Search → Outcome
  panicked : Outcome
  out_of_fuel : Outcome

unfoldable pub walk : List Edge → ℕ → Search → Outcome
unfolding visit
walk edges zero w = elim w.queue [ [] ↦ finished w | _ ∷ _ ↦ out_of_fuel ]
walk edges (suc fuel) w = elim w.queue [
  | [] ↦ finished w
  | node ∷ rest ↦ elim (visit edges node rest w) [ none ↦ panicked | some w' ↦ walk edges fuel w' ]
]

-- The loop on as much fuel as there are keys.
unfoldable pub kahn : (List String → List String) → Graph → Outcome
unfolding start walk
kahn hash_order g = walk g.edges (length g.keys) (start hash_order g)
