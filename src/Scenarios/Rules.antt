-- ===== src/Scenarios/Rules.antt =====
-- The shipped model on a development board, a type with its own lifecycle, and a small table of
-- relations.
use arrow_kanban.Prelude.{
  ◌<◌, String, ◌≡◌, ◌≢◌, refl, true, false, none, some, List, [], ◌∷◌, arith, ok, All, contains,
}
use arrow_kanban.Config.{
  BoardConfig, ConfigFile, validate, validate_boards, validate_board, board, states_for_type,
}
use arrow_kanban.StateModel.{
  TransitionVerdict, state, is_legal_transition, legal_targets, load_states, check_states,
  check_targets,
}
use arrow_kanban.StateModel.Closed.{legal_targets-legal}
use arrow_kanban.StateModel.Ontology.{ontology, kanban_states, kanban_states_lem}
use arrow_kanban.StateMachine.{
  illegal, position, uses_type_override, lifecycle_of, positional_rule,
  validate_transition_for_type, named_targets, type_transition_verdict, is_terminal_state,
}
use arrow_kanban.StateMachine.Transitions.{UsesModel}
use arrow_kanban.ItemType.{chore, all_prefixes}
use arrow_kanban.IdAlloc.{
  global_max_id, global_id_base, max_over_types, max_over_prefixes, max_id_for_prefix, max_id_from,
  next_number, allocate_id,
}
use arrow_kanban.IdAlloc.Fresh.{allocate_id-fresh}
use arrow_kanban.Relations.{RelationsStore, has_relation, incoming_by_predicate}
use arrow_kanban.Relations.Laws.{contains-incoming_by_predicate}

abbrev pub development : BoardConfig
development = record {
  name = "development";
  preset = "";
  path = "";
  scan_paths = "work" ∷ [];
  ignore = [];
  wip_exempt_types = [];
  wip_limits = ("underway", 2) ∷ [];
  states = "backlog" ∷ "in_progress" ∷ "done" ∷ [];
  phases = [];
  type_states = ("idea", "captured" ∷ "done" ∷ "archived" ∷ []) ∷ [];
}

abbrev config : ConfigFile
config = record {
  version = "1";
  boards = development ∷ [];
  namespace = none;
  default_board_name = none;
}

accepted : validate config ≡ ok tt
unfolding validate validate_boards validate_board
accepted = refl

found : board config "development" ≡ ok development
unfolding board
found = refl

by_model : UsesModel development none
unfolding uses_type_override
by_model = (refl, refl)

knows : is_legal_transition kanban_states "done" "review" ≢ TransitionVerdict.unknown_state
unfolding is_legal_transition state kanban_states load_states check_states check_targets
knows e = cc

overrides : uses_type_override development (some "idea") ≡ true
unfolding uses_type_override
overrides = refl

abbrev idea_states : List String
idea_states = "captured" ∷ "done" ∷ "archived" ∷ []

refusal :
    type_transition_verdict kanban_states development "done" "captured" "idea"
    ≡ illegal ("archived" ∷ [])
unfolding type_transition_verdict named_targets validate_transition_for_type uses_type_override
    lifecycle_of positional_rule position is_terminal_state states_for_type
refusal = refl

allowed : is_legal_transition kanban_states "backlog" "ready" ≡ TransitionVerdict.legal
unfolding is_legal_transition state kanban_states load_states check_states check_targets
allowed = refl

abbrev backlog : String
backlog = "backlog"

differ : backlog ≢ "ready"
differ e = cc

abbrev done_targets : List String
done_targets = "backlog" ∷ "in_progress" ∷ []

listed : legal_targets kanban_states "done" ≡ some done_targets
unfolding legal_targets state kanban_states load_states check_states check_targets
listed = refl

legal_targets-legal_example :
    All (λ t. is_legal_transition kanban_states "done" t ≡ TransitionVerdict.legal) done_targets
legal_targets-legal_example =
    legal_targets-legal ontology kanban_states "done" done_targets kanban_states_lem listed

empty_table : global_max_id [] ≡ 0
unfolding global_max_id max_over_types max_over_prefixes max_id_for_prefix max_id_from all_prefixes
empty_table = refl

allocate_id-fresh_example :
    (contains [] (allocate_id [] chore) ≡ false) × (global_id_base < next_number [])
allocate_id-fresh_example = allocate_id-fresh [] chore (omega (arith, empty_table))

abbrev table : RelationsStore
table =
    record {
      relation_id = "r";
      source_id = "VY-1";
      target_id = "CA-1";
      predicate = "partOf";
      created_at = 5;
      deleted = false;
    }
    ∷ []

related : has_relation table "VY-1" "CA-1" "partOf" ≡ true
unfolding has_relation
related = refl

contains-incoming_by_predicate_example :
    contains (incoming_by_predicate table "CA-1" "partOf") "VY-1"
    ≡ has_relation table "VY-1" "CA-1" "partOf"
contains-incoming_by_predicate_example = contains-incoming_by_predicate table "VY-1" "CA-1" "partOf"
