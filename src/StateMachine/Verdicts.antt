-- ===== src/StateMachine/Verdicts.antt =====
-- src/state_machine.rs: the three-valued verdict over a type's own lifecycle.
use arrow_kanban.Prelude.{
  ◌<◌, String, ◌≡◌, refl, subst, Bool, true, not, ◌&&◌, ◌↔◌, inl, inr, some, List, [], ◌∷◌, arith,
  contains, keep, lookup, Result, ok, err, is_ok, eq_iff, ◌==◌, Bool-cases,
}
use arrow_kanban.Config.{BoardConfig, states_for_type}
use arrow_kanban.StateModel.{LifecycleState}
use arrow_kanban.StateMachine.{
  legal, illegal, is_terminal_state, position, uses_type_override, lifecycle_of,
  validate_transition_for_type, named_targets, type_transition_verdict,
}
use arrow_kanban.StateMachine.Transitions.{Forwardable, position_governs, eq_of_position}

-- A text is in a filtered list exactly if it is in the list and passes.
contains-keep :
    (p : String → Bool) (xs : List String) (t : String)
    → contains (keep p xs) t ≡ (contains xs t && p t)
contains-keep p [] t = refl
contains-keep p (x ∷ xs) t = elim (Bool-cases (x == t)) [
  | inl same ↦ rw ((eq_iff x t).0 same) (ground (arith, contains-keep p xs t, eq_iff t t))
  | inr other ↦ ground (arith, contains-keep p xs t)
]

ok_tt : {E : Type 0} (r : Result E Unit) → is_ok r ≡ true → r ≡ ok tt
ok_tt (ok tt) h = refl
ok_tt (err e) h = cc

module _ (model : List LifecycleState) (b : BoardConfig) (from item_type : String)
    (states : List String) where
  -- On a type's own lifecycle the rule by position decides.
  own_lifecycle :
      (to : String)
      → lookup item_type b.type_states ≡ some states
      → (validate_transition_for_type model b from to (some item_type) ≡ ok tt)
        ↔ Forwardable states from to
  unfolding uses_type_override lifecycle_of states_for_type
  own_lifecycle to own =
      let same : lifecycle_of b (some item_type) ≡ states = ground arith in
      let override : uses_type_override b (some item_type) ≡ true = ground arith in
      subst
        (λ (s : List String).
          (validate_transition_for_type model b from to (some item_type) ≡ ok tt)
          ↔ Forwardable s from to)
        same (position_governs model b from to (some item_type) (inr (inl override)))

  -- `is_ok` of the validation, at any target.
  ok_iff :
      (to : String)
      → lookup item_type b.type_states ≡ some states
      → (is_ok (validate_transition_for_type model b from to (some item_type)) ≡ true)
        ↔ Forwardable states from to
  ok_iff to own =
      let rule = own_lifecycle to own in
      (
        λ h. rule.0 (ok_tt (validate_transition_for_type model b from to (some item_type)) h),
        λ f. rw (rule.1 f),
      )

  -- On a type's own lifecycle the verdict is `legal` exactly if both states are in it, and the move
  -- starts at a state that is not terminal or does not go backward.
  pub verdict-legal_iff :
      (to : String)
      → lookup item_type b.type_states ≡ some states
      → (type_transition_verdict model b from to item_type ≡ legal) ↔ Forwardable states from to
  unfolding type_transition_verdict
  verdict-legal_iff to own =
      (λ h. ground (arith, ok_iff to own), λ f. ground (arith, ok_iff to own))

  -- On a type's own lifecycle a move is refused only backward from a terminal state.
  pub verdict-illegal :
      (to : String) (targets : List String)
      → lookup item_type b.type_states ≡ some states
      → type_transition_verdict model b from to item_type ≡ illegal targets
      → (is_terminal_state from ≡ true) × (position states to < position states from)
  unfolding type_transition_verdict
  verdict-illegal to targets own h = ground (arith, ok_iff to own)

  -- On a type's own lifecycle, the targets that a refusal names are the states that stand later
  -- in it.
  pub contains-illegal :
      (to t : String) (targets : List String)
      → lookup item_type b.type_states ≡ some states
      → type_transition_verdict model b from to item_type ≡ illegal targets
      → (contains targets t ≡ true)
        ↔ ((contains states t ≡ true) × (position states from < position states t))
  unfolding type_transition_verdict named_targets
  contains-illegal to t targets own h =
      let same : keep test states ≡ targets = ground arith in
      let member =
        subst (λ l. contains l t ≡ (contains states t && test t)) same
          (contains-keep test states t) in
      let refused = verdict-illegal to targets own h in
      let present : contains states from ≡ true = ground arith in
      (
        λ c. ground (arith, member, ok_iff t own, eq_iff t from, eq_of_position states t from),
        λ (c, later). ground (arith, member, ok_iff t own, eq_iff t from),
      )
    where
      test : String → Bool
      test t' =
          not (t' == from) && is_ok (validate_transition_for_type model b from t' (some item_type))
