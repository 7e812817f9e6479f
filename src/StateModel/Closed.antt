-- ===== src/StateModel/Closed.antt =====
-- src/state_model.rs: what the loader guarantees of the graph, and what the queries answer.
use arrow_kanban.Prelude.{
  String, ◌≡◌, subst, true, none, some, inl, inr, List, [], ◌∷◌, arith, Bool-cases, any, contains,
  ◌==◌, eq_iff, ◌≢◌, ok, All, All-mono, All-and, All-contains, find-All, find_of_any, Option-cases,
  map, ◌↔◌, ◌⊎◌,
}
use arrow_kanban.StateModel.{
  LifecycleState, legal, unknown_state, state, is_legal_transition, legal_targets, Declared,
  owned_state, check_targets, check_states, parse_lifecycle_states,
}

-- A state of the model `out` has this name.
abbrev pub IsDeclared : List LifecycleState → String → Type 0
IsDeclared out t = any (λ (q : LifecycleState). q.name == t) out ≡ true

abbrev pub IsClosed : List LifecycleState → LifecycleState → Type 0
IsClosed out s = All (IsDeclared out) s.transitions_to

check_targets-All :
    (out : List LifecycleState) (name : String) (ts : List String)
    → check_targets out name ts ≡ ok tt
    → All (IsDeclared out) ts
unfolding check_targets
check_targets-All out name [] h = tt
check_targets-All out name (t ∷ ts) h = (ground arith, check_targets-All out name ts (ground arith))

check_states-All :
    (out ss : List LifecycleState) → check_states out ss ≡ ok tt → All (IsClosed out) ss
unfolding check_states
check_states-All out [] h = tt
check_states-All out (s ∷ ss) h = (
  check_targets-All out s.name s.transitions_to (ground arith),
  check_states-All out ss (ground arith),
)

parse-All :
    (ds : List Declared) (out : List LifecycleState)
    → parse_lifecycle_states ds ≡ ok out
    → All (IsClosed out) out
unfolding parse_lifecycle_states
parse-All ds out h =
    let all = map owned_state ds in
    let same : all ≡ out = ground arith in
    let sound : check_states all all ≡ ok tt = ground arith in
    subst (λ o. All (IsClosed o) o) same (check_states-All all all sound)

state-IsClosed :
    (out : List LifecycleState) (from : String) (f : LifecycleState)
    → All (IsClosed out) out
    → state out from ≡ some f
    → IsClosed out f
unfolding state
state-IsClosed out from f all found =
    (find-All (IsClosed out) (λ (s : LifecycleState). s.name == from) out f all found).0

module _ (out : List LifecycleState) (from : String) (f : LifecycleState) where
  legal_of_declared :
      (t : String)
      → state out from ≡ some f
      → IsDeclared out t
      → contains f.transitions_to t ≡ true
      → is_legal_transition out from t ≡ legal
  unfolding is_legal_transition state
  legal_of_declared t sf d c =
      let (q, e) = find_of_any (λ (q : LifecycleState). q.name == t) out d in ground arith

-- In a model that the parser accepts, each of the targets listed for a state is a legal move from
-- it. So a refusal names no move that would itself be refused.
pub legal_targets-legal :
    (ds : List Declared) (out : List LifecycleState) (from : String) (ts : List String)
    → parse_lifecycle_states ds ≡ ok out
    → legal_targets out from ≡ some ts
    → All (λ t. is_legal_transition out from t ≡ legal) ts
unfolding legal_targets
legal_targets-legal ds out from ts h e = elim (Option-cases (state out from)) [
  | inl absent ↦ absurd (ground arith)
  | inr (f, found) ↦
      let same : f.transitions_to ≡ ts = ground arith in
      let closed = state-IsClosed out from f (parse-All ds out h) found in
      subst (All (λ t. is_legal_transition out from t ≡ legal)) same (
        All-mono (λ t. IsDeclared out t × (contains f.transitions_to t ≡ true))
          (λ t. is_legal_transition out from t ≡ legal)
          (λ t (d, c). legal_of_declared out from f t found d c) f.transitions_to
          (All-and (IsDeclared out) (λ t. contains f.transitions_to t ≡ true) f.transitions_to
            closed (All-contains f.transitions_to)))
]

-- An edge of the model: both states are in it, and the first lists the second.
abbrev pub Edge : List LifecycleState → String → String → Type 0
Edge states from to =
    (f t : LifecycleState) × (state states from ≡ some f)
    × (state states to ≡ some t)
    × (contains f.transitions_to to ≡ true)

-- A move is legal exactly if it stays at its state or is an edge of the model.
pub is_legal_transition-legal_iff :
    (states : List LifecycleState) (from to : String)
    → (is_legal_transition states from to ≡ legal) ↔ ((from ≡ to) ⊎ Edge states from to)
unfolding is_legal_transition
is_legal_transition-legal_iff states from to = (
  λ h. elim (Bool-cases (from == to)) [
    | inl same ↦ inl ((eq_iff from to).0 same)
    | inr moves ↦ inr (elim (Option-cases (state states from)) [
      | inl absent ↦ absurd (ground arith)
      | inr (f, hf) ↦ elim (Option-cases (state states to)) [
        | inl absent ↦ absurd (ground arith)
        | inr (t, ht) ↦ (f, t, hf, ht, ground arith)
      ]
    ])
  ],
  λ h. elim h [
    | inl same ↦ ground (arith, eq_iff from to)
    | inr (f, t, hf, ht, edge) ↦ ground arith
  ],
)

-- A verdict is `unknown_state` exactly if the move leaves its state and one of the two is not in the
-- model.
pub is_legal_transition-unknown_iff :
    (states : List LifecycleState) (from to : String)
    → (is_legal_transition states from to ≡ unknown_state)
      ↔ ((from ≢ to) × ((state states from ≡ none) ⊎ (state states to ≡ none)))
unfolding is_legal_transition
is_legal_transition-unknown_iff states from to = (
  λ h. (λ same. ground (arith, eq_iff from to), ground arith),
  λ (ne, absent). ground (arith, eq_iff from to),
)
