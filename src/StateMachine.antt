-- ===== src/StateMachine.antt =====
-- src/state_machine.rs: transitions, WIP limits, resolutions and the status filter.
pub mod Transitions
pub mod Verdicts
pub mod Limits
use arrow_kanban.Prelude.{
  ℕ, zero, suc, String, Bool, true, false, not, ◌&&◌, ◌||◌, Option, none, some, List, [], ◌∷◌, ltb,
  leb, eqb, keep, contains, lookup, join, ◌==◌, ◌<>◌, if◌then◌else◌, Result, ok, err, is_ok,
}
use arrow_kanban.Config.{BoardConfig, states_for_type, wip_limit, is_wip_exempt}
use arrow_kanban.StateModel.{LifecycleState, TransitionVerdict, is_legal_transition}

pub data StateError : Type 0 where
  -- from, to, board
  invalid_transition : String → String → String → StateError
  -- from, to, targets
  illegal_per_model : String → String → String → StateError
  -- state, board
  invalid_state : String → String → StateError
  -- status, current, limit
  wip_limit_reached : String → ℕ → ℕ → StateError
  invalid_resolution : String → StateError
  resolution_on_non_terminal : String → StateError

abbrev pub terminal_states : List String
terminal_states = "done" ∷ "complete" ∷ "abandoned" ∷ "retired" ∷ []

unfoldable pub is_terminal_state : String → Bool
is_terminal_state status = contains terminal_states status

-- `iter().position(..)`, past the end where the state is absent. It is read behind the tests that
-- the state is present, where the source has `expect`.
unfoldable pub position : List String → String → ℕ
position [] s = zero
position (x ∷ xs) s = if x == s then zero else suc (position xs s)

-- `item_type.is_some_and(|t| board.type_states.contains_key(t))`
unfoldable pub uses_type_override : BoardConfig → Option String → Bool
uses_type_override b none = false
uses_type_override b (some t) = elim (lookup t b.type_states) [ none ↦ false | some _ ↦ true ]

unfoldable pub lifecycle_of : BoardConfig → Option String → List String
lifecycle_of b none = b.states
lifecycle_of b (some t) = states_for_type b t

-- The rule by position, from `from_valid` to the end of the function.
unfoldable pub positional_rule :
    BoardConfig → List String → String → String → Result StateError (Unit {0})
positional_rule b states from to =
    if not (contains states from)
    then err (invalid_state from b.name)
    else if not (contains states to)
    then err (invalid_state to b.name)
    else if ltb (position states from) (position states to)
    then ok tt
    else if eqb (position states from) (position states to)
    then ok tt
    else if not (is_terminal_state from)
    then ok tt
    else err (invalid_transition from to b.name)

-- `model` is the lifecycle model that is loaded.
module _ (model : List LifecycleState) where
  unfoldable pub validate_transition_for_type :
      BoardConfig → String → String → Option String → Result StateError (Unit {0})
  validate_transition_for_type b from to item_type =
      if b.name == "development" && not (uses_type_override b item_type)
      then elim (is_legal_transition model from to) [
        | TransitionVerdict.legal ↦ ok tt
        | TransitionVerdict.illegal targets ↦ err (illegal_per_model from to (join ", " targets))
        | TransitionVerdict.unknown_state ↦ positional_rule b (lifecycle_of b item_type) from to
      ]
      else positional_rule b (lifecycle_of b item_type) from to

  unfoldable pub validate_transition : BoardConfig → String → String → Result StateError (Unit {0})
  validate_transition b from to = validate_transition_for_type b from to none

pub data TypeTransitionVerdict : Type 0 where
  legal : TypeTransitionVerdict
  illegal : List String → TypeTransitionVerdict
  outside_lifecycle : TypeTransitionVerdict

module _ (model : List LifecycleState) (b : BoardConfig) (from to item_type : String) where
  -- The states that a refusal names.
  unfoldable pub named_targets : List String → List String
  named_targets states =
      keep
        (λ t.
          not (t == from) && is_ok (validate_transition_for_type model b from t (some item_type)))
        states

  unfoldable pub type_transition_verdict : TypeTransitionVerdict
  type_transition_verdict = elim (lookup item_type b.type_states) [
    | none ↦ TypeTransitionVerdict.outside_lifecycle
    | some states ↦
        if not (contains states from) || not (contains states to)
        then TypeTransitionVerdict.outside_lifecycle
        else if is_ok (validate_transition_for_type model b from to (some item_type))
        then TypeTransitionVerdict.legal
        else TypeTransitionVerdict.illegal (named_targets states)
  ]

-- `match status { .. }` inside `match board_name { .. }`
unfoldable pub status_to_wip_category : String → String → String
status_to_wip_category status board_name =
    if board_name == "development"
    then if contains ("backlog" ∷ "planning" ∷ "ready" ∷ []) status
      then "provisioning"
      else if status == "in_progress"
      then "underway"
      else if status == "review"
      then "approaching"
      else ""
    else if board_name == "research"
    then if status == "active" then "active" else ""
    else ""

unfoldable pub check_wip_limit : BoardConfig → String → ℕ → String → Result StateError (Unit {0})
check_wip_limit b target_status current_count item_type =
    if is_wip_exempt b item_type
    then ok tt
    else elim (wip_limit b (status_to_wip_category target_status b.name)) [
      | none ↦ ok tt
      | some limit ↦
          if leb limit current_count
          then err (wip_limit_reached target_status current_count limit)
          else ok tt
    ]

abbrev pub valid_resolutions : List String
valid_resolutions =
    "completed" ∷ "superseded" ∷ "wont_do" ∷ "duplicate" ∷ "obsolete" ∷ "merged" ∷ "refuted" ∷ []

unfoldable pub validate_resolution : Option String → String → Result StateError (Unit {0})
validate_resolution none target_status = ok tt
validate_resolution (some res) target_status =
    if not (contains valid_resolutions res)
    then err (invalid_resolution res)
    else if not (contains terminal_states target_status)
    then err (resolution_on_non_terminal target_status)
    else ok tt

abbrev pub valid_statuses : List String
valid_statuses =
    "backlog" ∷ "in_progress" ∷ "review" ∷ "done" ∷ "blocked" ∷ "draft" ∷ "active" ∷ "retired"
    ∷ "complete" ∷ "abandoned" ∷ "planned" ∷ "running" ∷ "outline" ∷ "writing" ∷ "captured"
    ∷ "formalized" ∷ "planning" ∷ "ready" ∷ "stale" ∷ "refining" ∷ []

unfoldable pub validate_status_filter : String → Result String (Unit {0})
validate_status_filter status =
    if contains valid_statuses status
    then ok tt
    else err ("unknown --status '" <> status <> "' — valid statuses: " <> join ", " valid_statuses)
