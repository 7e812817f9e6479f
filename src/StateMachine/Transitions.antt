-- ===== src/StateMachine/Transitions.antt =====
-- src/state_machine.rs: which moves `validate_transition_for_type` allows, and why it refuses.
use arrow_kanban.Prelude.{
  ◌≤◌, String, ◌≡◌, ◌≢◌, true, false, ◌↔◌, ◌⊎◌, Option, List, [], ◌∷◌, arith, contains, ok, eq_iff,
  ◌==◌,
}
use arrow_kanban.Config.{BoardConfig}
use arrow_kanban.StateModel.{LifecycleState, TransitionVerdict, is_legal_transition}
use arrow_kanban.StateMachine.{
  is_terminal_state, position, uses_type_override, lifecycle_of, positional_rule,
  validate_transition_for_type,
}

-- What the rule by position allows: both states are in the lifecycle, and the move starts at a
-- state that is not terminal or does not go backward.
abbrev pub Forwardable : List String → String → String → Type 0
Forwardable states from to =
    (contains states from ≡ true)
    × (contains states to ≡ true)
    × ((is_terminal_state from ≡ false) ⊎ (position states from ≤ position states to))

-- By position a move is allowed exactly if both states are in the lifecycle, and it starts at a
-- state that is not terminal or does not go backward.
pub positional_rule-ok_iff :
    (b : BoardConfig) (states : List String) (from to : String)
    → (positional_rule b states from to ≡ ok tt) ↔ Forwardable states from to
unfolding positional_rule
positional_rule-ok_iff b states from to =
    (λ h. (ground arith, ground arith, ground arith), λ (a, c, d). ground arith)

-- The model is consulted: a board named development, and no lifecycle of the type's own.
abbrev pub UsesModel : BoardConfig → Option String → Type 0
UsesModel b item_type =
    ((b.name == "development") ≡ true) × (uses_type_override b item_type ≡ false)

module _ (model : List LifecycleState) (b : BoardConfig) (from to : String)
    (item_type : Option String) where
  -- Where the model is consulted and knows both states it alone decides, whatever the states that
  -- the configuration lists: a move is allowed exactly if the model has it.
  pub model_governs :
      UsesModel b item_type
      → is_legal_transition model from to ≢ TransitionVerdict.unknown_state
      → (validate_transition_for_type model b from to item_type ≡ ok tt)
        ↔ (is_legal_transition model from to ≡ TransitionVerdict.legal)
  unfolding validate_transition_for_type
  model_governs (dev, own) known = (λ h. ground arith, λ h. ground arith)

  -- Where the model is not consulted, or does not know a state, the rule by position decides over
  -- the lifecycle of the type.
  pub position_governs :
      ((b.name == "development") ≡ false)
        ⊎ (uses_type_override b item_type ≡ true)
        ⊎ (is_legal_transition model from to ≡ TransitionVerdict.unknown_state)
      → (validate_transition_for_type model b from to item_type ≡ ok tt)
        ↔ Forwardable (lifecycle_of b item_type) from to
  unfolding validate_transition_for_type
  position_governs h =
      let rule = positional_rule-ok_iff b (lifecycle_of b item_type) from to in
      (λ e. rule.0 (ground arith), λ f. ground (arith, rule.1 f))

-- Two states of a lifecycle at one position are the same state.
pub eq_of_position :
    (states : List String) (s t : String)
    → contains states s ≡ true
    → contains states t ≡ true
    → position states s ≡ position states t
    → s ≡ t
unfolding position
eq_of_position [] s t h k e = cc
eq_of_position (x ∷ xs) s t h k e = ground (arith, eq_iff x s, eq_iff x t, eq_of_position xs s t)
