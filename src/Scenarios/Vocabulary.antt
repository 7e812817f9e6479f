-- ===== src/Scenarios/Vocabulary.antt =====
-- A create and two updates with typed edges under the compiled vocabulary, and its reloads.
use arrow_kanban.Prelude.{
  ◌≡◌, ◌≤◌, refl, String, true, false, eq_ignore_ascii_case, none, some, List, [], ◌∷◌, ok, err,
  arith, is_ok,
}
use arrow_kanban.ItemType.{ItemType, as_str, from_str_loose, prefix, all_prefixes}
use arrow_kanban.Crud.{KanbanStore}
use arrow_kanban.Crud.Rows.{get_item, live, find_item}
use arrow_kanban.Crud.Create.{ids_of}
use arrow_kanban.IdAlloc.{allocate_id, global_max_id, max_id_for_prefix, number_of}
use arrow_kanban.Prelude.Decimal.{show}
use arrow_kanban.Scenarios.Replays as Board
use arrow_kanban.Handlers.{Refusal, invalid_relation}
use arrow_kanban.Relations.{has_relation}
use arrow_kanban.Events.Effects.{Stores, split_once}
use arrow_kanban.RelationVocab.{
  Predicate, EntityClass, bad_domain, admits, admits_target, codes, trim, trim_start, trim_end,
  normalized, lookup, validate_edge, parse_spec, before_dash, upper_eq, type_from_id,
}
use arrow_kanban.RelationVocab.Reload.{
  Vocabulary, fallback_predicates, reload_from_ttl, reload_from_ttl-IsFloored,
  reload_from_ttl-same_names, IsFloored, reload_budget,
}
use arrow_kanban.Handlers.Relating.{CreateRequest, parse_and_validate, handle_create_typed}
use arrow_kanban.Handlers.Updating.{
  UpdateRequest, check_subject, validate_update, handle_update_typed,
}
use arrow_kanban.Handlers.Relating.Allowed.{AllTyped}
use arrow_kanban.Handlers.Updating.Typed.{handle_update_typed-AllTyped}
use arrow_kanban.Handlers.Updating.Refusals.{handle_update_typed-refused}
use arrow_kanban.Handlers.Relating.Created.{
  handle_create_typed-AllTyped, handle_create_typed_to_self,
}

abbrev rest_of : List Predicate → List Predicate
rest_of [] = []
rest_of (_ ∷ ps) = ps

abbrev proposal : EntityClass
proposal = record { name = "proposal"; id_prefix = some "PROP" }

abbrev held : Vocabulary
held = record { predicates = fallback_predicates; classes = []; reloads_used = 3 }

all_declared : IsFloored held
all_declared = (refl, (refl, (refl, (refl, (refl, (refl, (refl, (refl, (refl, tt)))))))))

-- A reload that adds a class to the compiled predicates.
reload_from_ttl-IsFloored_example :
    let after = (reload_from_ttl (ok fallback_predicates) (ok (proposal ∷ [])) held).1 in
    IsFloored after × (after.reloads_used ≤ reload_budget)
reload_from_ttl-IsFloored_example =
    reload_from_ttl-IsFloored (ok fallback_predicates) (ok (proposal ∷ [])) held all_declared
      (omega arith)

reload_from_ttl-same_names_example :
    reload_from_ttl (ok fallback_predicates) (ok (proposal ∷ [])) held
    ≡ (ok (record { predicates_loaded = 9; classes_loaded = 1; added = []; removed = [] }), held)
reload_from_ttl-same_names_example =
    reload_from_ttl-same_names
      (record {
        name = "related";
        domain = [];
        range = [];
        inverse = none;
        doc = "informational link between any two items (the existing --related)";
      })
      (rest_of fallback_predicates) proposal [] held all_declared all_declared all_declared

abbrev store : KanbanStore
store = record { items = Board.claimed ∷ []; runs = []; comments = [] }

abbrev board : Stores
board = record {
  store = store;
  relations =
      record {
        relation_id = "r-1";
        source_id = "EX-1300";
        target_id = "VY-1200";
        predicate = "implements";
        created_at = 7;
        deleted = false;
      }
      ∷ [];
}

board_typed : AllTyped fallback_predicates (proposal ∷ []) board.relations
unfolding admits admits_target type_from_id before_dash upper_eq codes eq_ignore_ascii_case
board_typed = (refl, tt)

-- A title, an edge to add and one to remove.
abbrev edit : List String → UpdateRequest
edit relate = record {
  id = "EX-1300";
  title = some "Chart the reef";
  priority = none;
  assignee = none;
  tags = none;
  body = none;
  related = none;
  depends_on = none;
  relate = relate;
  unrelate = "implements:VY-1200" ∷ [];
}

handle_update_typed-AllTyped_example :
    AllTyped fallback_predicates
      (proposal ∷ [])
      (handle_update_typed fallback_predicates
        (proposal ∷ [])
        Board.envs
        (edit ("depends-on:EX-1299" ∷ []))
        board).1.relations
handle_update_typed-AllTyped_example =
    handle_update_typed-AllTyped fallback_predicates (proposal ∷ []) Board.envs
      (edit ("depends-on:EX-1299" ∷ [])) board board_typed

-- A second edge starts from a type that its predicate does not allow.
handle_update_typed-refused_example :
    (handle_update_typed fallback_predicates
      (proposal ∷ [])
      Board.envs
      (edit ("depends-on:EX-1299" ∷ "validates:H-1" ∷ []))
      board).1
    ≡ board
unfolding handle_update_typed get_item validate_update check_subject parse_and_validate parse_spec
    split_once trim trim_start trim_end validate_edge lookup normalized codes admits admits_target
    type_from_id before_dash upper_eq live find_item eq_ignore_ascii_case
handle_update_typed-refused_example =
    handle_update_typed-refused fallback_predicates (proposal ∷ []) Board.envs
      (edit ("depends-on:EX-1299" ∷ "validates:H-1" ∷ [])) board
      (invalid_relation (bad_domain "validates" "expedition" ("experiment" ∷ []))) refl refl

abbrev creation : CreateRequest
creation = record {
  title = "Sound the bay";
  item_type = "expedition";
  priority = none;
  assignee = none;
  tags = [];
  related = [];
  depends_on = [];
  body = none;
  relate = "related:EX-1301" ∷ [];
}

handle_create_typed-AllTyped_example :
    let (done, after) =
      handle_create_typed fallback_predicates (proposal ∷ []) Board.envs creation board in
    AllTyped fallback_predicates (proposal ∷ []) after.relations
    × ((x : Refusal) → done ≡ err x → after ≡ board)
handle_create_typed-AllTyped_example =
    handle_create_typed-AllTyped fallback_predicates (proposal ∷ []) Board.envs creation board
      board_typed

handle_create_typed_to_self_example :
    let (done, after) =
      handle_create_typed fallback_predicates (proposal ∷ []) Board.envs creation board in
    let id = allocate_id (ids_of board.store) ItemType.expedition in
    (is_ok done ≡ true) × (has_relation after.relations id id "related" ≡ true)
unfolding parse_spec split_once trim trim_start trim_end validate_edge lookup normalized codes
    admits admits_target type_from_id before_dash upper_eq from_str_loose allocate_id prefix as_str
    show global_max_id eq_ignore_ascii_case all_prefixes max_id_for_prefix number_of
handle_create_typed_to_self_example =
    handle_create_typed_to_self fallback_predicates (proposal ∷ []) Board.envs creation board
      ItemType.expedition "related:EX-1301" "related"
      (record {
        name = "related";
        domain = [];
        range = [];
        inverse = none;
        doc = "informational link between any two items (the existing --related)";
      })
      refl refl refl refl
