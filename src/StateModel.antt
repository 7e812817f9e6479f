-- ===== src/StateModel.antt =====
-- src/state_model.rs: the lifecycle model of the development board, as data. The Turtle parser's
-- text scanning is not modelled: what it collects of a state's triples is a `Declared`.
pub mod Closed
pub mod Ontology
use arrow_kanban.Prelude.{
  String, Bool, not, Option, none, some, List, [], ◌∷◌, any, find, contains, ◌==◌, ◌<>◌,
  if◌then◌else◌, Result, ok, err, ◌>>=◌, map,
}

pub record LifecycleState : Type 0 where
  pub name : String
  pub board : String
  pub transitions_to : List String
  pub doc : String

pub data TransitionVerdict : Type 0 where
  legal : TransitionVerdict
  illegal : List String → TransitionVerdict
  unknown_state : TransitionVerdict

-- `state`: the first entry of that name. `states` is the loaded model, which the source keeps in a
-- static.
unfoldable pub state : List LifecycleState → String → Option LifecycleState
state states name = find (λ s. s.name == name) states

unfoldable pub is_legal_transition : List LifecycleState → String → String → TransitionVerdict
unfolding state
is_legal_transition states from to = if from == to then legal else elim (state states from) [
  | none ↦ unknown_state
  | some f ↦ elim (state states to) [
    | none ↦ unknown_state
    | some t ↦ if contains f.transitions_to to then legal else illegal f.transitions_to
  ]
]

unfoldable pub legal_targets : List LifecycleState → String → Option (List String)
legal_targets states from = elim (state states from) [
  | none ↦ none
  | some s ↦ some s.transitions_to
]

-- The compiled model that a malformed file falls back to.
abbrev pub fallback_states : List LifecycleState
fallback_states =
    record {
      name = "backlog";
      board = "development";
      transitions_to = "planning" ∷ "ready" ∷ "in_progress" ∷ "review" ∷ "done" ∷ [];
      doc = "raw intake (legacy fallback model)";
    }
    ∷ record {
      name = "in_progress";
      board = "development";
      transitions_to = "backlog" ∷ "planning" ∷ "ready" ∷ "review" ∷ "done" ∷ [];
      doc = "claimed and being built (legacy fallback model)";
    }
    ∷ record {
      name = "review";
      board = "development";
      transitions_to = "backlog" ∷ "planning" ∷ "ready" ∷ "in_progress" ∷ "done" ∷ [];
      doc = "under cross-agent review (legacy fallback model)";
    }
    ∷ record {
      name = "done";
      board = "development";
      transitions_to = "backlog" ∷ "planning" ∷ "ready" ∷ "in_progress" ∷ "review" ∷ [];
      doc = "terminal with resolution (legacy fallback model)";
    }
    ∷ []

-- What the parser reads of one declaration, before its defaults: `rdfs:label` and `rdfs:comment`
-- may be missing, `board` is empty where `kb:board` is.
pub record Declared : Type 0 where
  pub local : String
  pub board : String
  pub label : Option String
  pub comment : Option String
  pub transitions : List String

unfoldable pub owned_state : Declared → LifecycleState
owned_state d = record {
  name = elim d.label [ some l ↦ l | none ↦ d.local ];
  board = if d.board == "" then "development" else d.board;
  transitions_to = d.transitions;
  doc = elim d.comment [ some c ↦ c | none ↦ "" ];
}

-- The referential check at the parser's end: every target is a declared state.
unfoldable pub check_targets : List LifecycleState → String → List String → Result String (Unit {0})
check_targets out name [] = ok tt
check_targets out name (t ∷ ts) =
    if any (λ (q : LifecycleState). q.name == t) out
    then check_targets out name ts
    else err ("state '" <> name <> "' transitions to undeclared state '" <> t <> "'")

unfoldable pub check_states : List LifecycleState → List LifecycleState → Result String (Unit {0})
check_states out [] = ok tt
check_states out (s ∷ rest) =
    check_targets out s.name s.transitions_to >>= λ _. check_states out rest

unfoldable pub parse_lifecycle_states : List Declared → Result String (List LifecycleState)
unfolding owned_state
parse_lifecycle_states ds = let out = map owned_state ds in check_states out out >>= λ _. ok out

-- `states`: a parsed model with a state, else the fallback. `parsed` is what the parser returned.
unfoldable pub load_states : Result String (List LifecycleState) → List LifecycleState
load_states (ok []) = fallback_states
load_states (ok (s ∷ rest)) = s ∷ rest
load_states (err e) = fallback_states
