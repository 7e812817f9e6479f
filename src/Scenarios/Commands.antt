-- ===== src/Scenarios/Commands.antt =====
-- A claim, a second claim, a bounce and a move of one item in the backlog.
use arrow_kanban.Prelude.{
  String, ◌≡◌, ◌≢◌, refl, ◌==◌, true, Option, none, some, List, [], ◌∷◌, ok, err, contains, arith,
  eq_iff, if◌then◌else◌,
}
use arrow_kanban.Config.{BoardConfig}
use arrow_kanban.StateModel.{LifecycleState, TransitionVerdict, state, is_legal_transition}
use arrow_kanban.StateMachine.{
  valid_statuses, validate_resolution, validate_status_filter, is_terminal_state,
}
use arrow_kanban.Crud.{Item, KanbanStore}
use arrow_kanban.Crud.Rows.{get_item, live, find_item, modify, update_item}
use arrow_kanban.Crud.Fields.{
  update_assignee, update_resolution, update_closed_by, touch_updated_at,
  update_nullable_string_field, body_hash_of,
}
use arrow_kanban.Crud.Comments.{add_comment, push_comment}
use arrow_kanban.Crud.Status.{
  update_status, status_of, record_run, clear_closure, status_and_assignee, check_exclusive_claim,
  run_reasons_landing, reasons_landing,
}
use arrow_kanban.Handlers.{
  judge_transition, judge_move, check_claim, write_move, handle_move_typed, newest_stamp,
  check_holder, check_bounced, claim_request, claim_held, claim_bounced, handle_claim_typed,
  handle_bounce_typed,
}
use arrow_kanban.Handlers.Claims.{handle_claim_typed-excludes}
use arrow_kanban.Handlers.Lawful.{handle_move_typed-IsLawful}
use arrow_kanban.Handlers.Bounces.{handle_claim-bounced}
use arrow_kanban.Scenarios.Replays as Board
use arrow_kanban.Scenarios.Rules.{development}

abbrev model : List LifecycleState
model =
    record {
      name = "backlog";
      board = "development";
      transitions_to = "in_progress" ∷ "done" ∷ [];
      doc = "";
    }
    ∷ record {
      name = "in_progress";
      board = "development";
      transitions_to = "backlog" ∷ [];
      doc = "";
    }
    ∷ []

abbrev board_config_for : String → Option BoardConfig
board_config_for board = some development

-- A stamp keeps the hash. The empty text is the stamp of no hash, and one text is that of a hash.
abbrev stamp : Option String → String → String → String
stamp none agent reason = ""
stamp (some sha) agent reason = sha

abbrev read_stamp : String → Option (Option String)
read_stamp text =
    if text == "" then some none else if text == "c0de" then some (some "c0de") else none

abbrev waiting : Item
waiting = record Board.claimed { status = "backlog"; assignee = none }

abbrev store : KanbanStore
store = record { items = waiting ∷ []; runs = []; comments = [] }

claims :
    (handle_claim_typed model board_config_for stamp read_stamp
      (Board.envs 0)
      "EX-1300"
      "ann"
      store).0
    ≡ ok (record { id = "EX-1300"; from = "backlog"; to = "in_progress"; resolution = none })
unfolding handle_claim_typed handle_move_typed validate_resolution get_item live find_item
    status_and_assignee check_holder check_bounced newest_stamp run_reasons_landing reasons_landing
    judge_move judge_transition validate_status_filter is_legal_transition state check_claim
    check_exclusive_claim write_move update_status status_of modify update_item record_run
    clear_closure update_assignee update_resolution update_closed_by is_terminal_state
    update_nullable_string_field touch_updated_at
claims = refl

abbrev after_claim : KanbanStore
after_claim =
    (handle_claim_typed model board_config_for stamp read_stamp (Board.envs 0) "EX-1300" "ann"
      store).1

abbrev ann : String
ann = "ann"

abbrev bob : String
bob = "bob"

named : ann ≢ ""
named h = absurd (ground (arith, eq_iff "ann" ""))

distinct : bob ≢ ann
distinct h = absurd (ground (arith, eq_iff "bob" "ann"))

handle_claim_typed-excludes_example :
    (status_and_assignee after_claim "EX-1300" ≡ ok ("in_progress", some "ann"))
    × (handle_claim_typed model board_config_for stamp read_stamp
          (Board.envs 9)
          "EX-1300"
          "bob"
          after_claim
        ≡ (err (claim_held "EX-1300" "ann"), after_claim))
handle_claim_typed-excludes_example =
    handle_claim_typed-excludes model board_config_for stamp read_stamp (Board.envs 0)
      (Board.envs 9) "EX-1300" "ann" "bob" store named distinct claims

there : live store "EX-1300" ≡ some waiting
unfolding live find_item
there = refl

moves :
    (handle_move_typed model board_config_for stamp read_stamp
      (Board.envs 0)
      (claim_request "EX-1300" "ann")
      store).0
    ≡ ok (record { id = "EX-1300"; from = "backlog"; to = "in_progress"; resolution = none })
unfolding handle_claim_typed handle_move_typed validate_resolution get_item live find_item
    status_and_assignee check_holder check_bounced newest_stamp run_reasons_landing reasons_landing
    judge_move judge_transition validate_status_filter is_legal_transition state check_claim
    check_exclusive_claim write_move update_status status_of modify update_item record_run
    clear_closure update_assignee update_resolution update_closed_by is_terminal_state
    update_nullable_string_field touch_updated_at
moves = refl

handle_move_typed-IsLawful_example :
    (contains valid_statuses "in_progress" ≡ true)
    × ("backlog" ≡ waiting.status)
    × (is_legal_transition model "backlog" "in_progress" ≢ TransitionVerdict.illegal ("done" ∷ []))
handle_move_typed-IsLawful_example =
    handle_move_typed-IsLawful model board_config_for stamp read_stamp (Board.envs 0)
      (claim_request "EX-1300" "ann") store waiting ("done" ∷ []) refl there moves

-- An item whose body has a hash.
abbrev described : Item
described = record waiting { body = some "tests?"; body_hash = some "c0de" }

abbrev described_store : KanbanStore
described_store = record { items = described ∷ []; runs = []; comments = [] }

described_there : live described_store "EX-1300" ≡ some described
unfolding live find_item
described_there = refl

bounces :
    (handle_bounce_typed model board_config_for stamp read_stamp
      (Board.envs 0)
      "EX-1300"
      "ann"
      "no tests"
      described_store).0
    ≡ ok ("backlog", some "c0de", "c0de")
unfolding handle_bounce_typed body_hash_of add_comment push_comment handle_claim_typed
    handle_move_typed validate_resolution get_item live find_item status_and_assignee check_holder
    check_bounced newest_stamp run_reasons_landing reasons_landing judge_move judge_transition
    validate_status_filter is_legal_transition state check_claim check_exclusive_claim write_move
    update_status status_of modify update_item record_run clear_closure update_assignee
    update_resolution update_closed_by is_terminal_state update_nullable_string_field
    touch_updated_at
bounces = refl

abbrev after_bounce : KanbanStore
after_bounce =
    (handle_bounce_typed model board_config_for stamp read_stamp (Board.envs 0) "EX-1300" "ann"
      "no tests" described_store).1

handle_claim-bounced_example :
    handle_claim_typed model board_config_for stamp read_stamp
      (Board.envs 9)
      "EX-1300"
      "bob"
      after_bounce
    ≡ (err (claim_bounced "EX-1300"), after_bounce)
handle_claim-bounced_example =
    handle_claim-bounced model board_config_for stamp read_stamp (Board.envs 0) (Board.envs 9)
      "EX-1300" "ann" "bob" "no tests" described_store described described_there refl bounces
