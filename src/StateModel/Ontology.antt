-- ===== src/StateModel/Ontology.antt =====
-- ontology/kanban.ttl: the lifecycle states that are compiled into the binary, as the parser of
-- src/state_model.rs collects them.
use arrow_kanban.Prelude.{String, ◌≡◌, refl, some, List, [], ◌∷◌, ok}
use arrow_kanban.StateModel.{
  LifecycleState, Declared, owned_state, check_targets, check_states, parse_lifecycle_states,
  load_states,
}

-- A state of the development board, labelled by its own name.
abbrev declare : String → List String → String → Declared
declare name targets doc = record {
  local = name;
  board = "development";
  label = some name;
  comment = some doc;
  transitions = targets;
}

unfoldable pub ontology : List Declared
ontology =
    declare "backlog" ("planning" ∷ "ready" ∷ "in_progress" ∷ "done" ∷ "stale" ∷ [])
      "raw intake — filed, not yet defined (backlog->in_progress stays legal for migration)"
    ∷ declare "planning" ("ready" ∷ "backlog" ∷ "done" ∷ [])
        "the contract is being written or repaired; NOT claimable — planning->in_progress is deliberately absent"
    ∷ declare "ready" ("in_progress" ∷ "planning" ∷ "done" ∷ [])
        "fully planned and claimable; planning->ready is the release act"
    ∷ declare "in_progress" ("review" ∷ "backlog" ∷ "planning" ∷ "done" ∷ [])
        "claimed and being built; ->backlog is the legacy bounce target, ->planning the re-plan-aware one"
    ∷ declare "review" ("done" ∷ "in_progress" ∷ "backlog" ∷ "planning" ∷ [])
        "a proposal is under cross-agent review; ->backlog un-parks remaining scope"
    ∷ declare "done" ("backlog" ∷ "in_progress" ∷ [])
        "terminal (with resolution); reopen paths kept — a close taken back is a real move, measured"
    ∷ declare "stale" ("backlog" ∷ [])
        "pre-backlog holding state for superseded-era work (a deliberate operator park; 132 live items rode in on it). Unpark goes to backlog; parking is legal from backlog only."
    ∷ []

-- The model that the binary runs with.
unfoldable pub kanban_states : List LifecycleState
unfolding ontology parse_lifecycle_states owned_state
kanban_states = load_states (parse_lifecycle_states ontology)

-- The ontology passes the parser's referential check, so the model is the ontology and not the
-- compiled fallback.
pub kanban_states_lem : parse_lifecycle_states ontology ≡ ok kanban_states
unfolding kanban_states load_states check_states check_targets
kanban_states_lem = refl
