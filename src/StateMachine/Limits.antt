-- ===== src/StateMachine/Limits.antt =====
-- src/state_machine.rs: WIP limits, resolutions and the status filter.
use arrow_kanban.Prelude.{
  ℕ, ◌<◌, String, ◌≡◌, refl, ◌≢◌, true, ◌↔◌, ◌⊎◌, inl, inr, Option, none, some, arith, contains, ok,
  eq_iff, ◌==◌, Option-cases, All, subst, find-All,
}
use arrow_kanban.Config.{BoardConfig, wip_limit, is_wip_exempt}
use arrow_kanban.StateModel.{
  LifecycleState, TransitionVerdict, state, is_legal_transition, load_states, check_states,
  check_targets,
}
use arrow_kanban.StateModel.Closed.{is_legal_transition-legal_iff}
use arrow_kanban.StateModel.Ontology.{kanban_states}
use arrow_kanban.StateMachine.Transitions.{UsesModel}
use arrow_kanban.StateMachine.{
  is_terminal_state, status_to_wip_category, check_wip_limit, valid_resolutions,
  validate_resolution, valid_statuses, validate_status_filter, validate_transition_for_type,
}

-- The cap that governs a status of the board, if it has one.
abbrev pub cap_of : BoardConfig → String → Option ℕ
cap_of b status = wip_limit b (status_to_wip_category status b.name)

-- An item may enter a status exactly if its type is exempt, the status has no cap, or fewer items
-- than the cap are there.
pub check_wip_limit-ok_iff :
    (b : BoardConfig) (status : String) (current : ℕ) (item_type : String)
    → (check_wip_limit b status current item_type ≡ ok tt) ↔ (
        (is_wip_exempt b item_type ≡ true)
        ⊎ (cap_of b status ≡ none)
        ⊎ ((limit : ℕ) × (cap_of b status ≡ some limit) × (current < limit)))
unfolding check_wip_limit
check_wip_limit-ok_iff b status current item_type = (
  λ h. elim (Option-cases (cap_of b status)) [
    | inl uncapped ↦ inr (inl uncapped)
    | inr (limit, e) ↦ ground arith
  ],
  λ h. ground arith,
)

-- A resolution is accepted exactly if there is none, or it is a listed one on a terminal status.
pub validate_resolution-ok_iff :
    (resolution : Option String) (status : String)
    → (validate_resolution resolution status ≡ ok tt) ↔ (
        (resolution ≡ none)
        ⊎ ((r : String) × (resolution ≡ some r)
            × (contains valid_resolutions r ≡ true)
            × (is_terminal_state status ≡ true)))
unfolding validate_resolution is_terminal_state
validate_resolution-ok_iff none status = (λ h. inl refl, λ h. refl)
validate_resolution-ok_iff (some r) status =
    (λ h. inr (r, refl, ground arith, ground arith), λ h. ground arith)

names_listed : All (λ (s : LifecycleState). contains valid_statuses s.name ≡ true) kanban_states
unfolding kanban_states load_states check_states check_targets
names_listed = (refl, (refl, (refl, (refl, (refl, (refl, (refl, tt)))))))

listed_of_state :
    (name : String) (s : LifecycleState)
    → state kanban_states name ≡ some s
    → contains valid_statuses name ≡ true
unfolding state
listed_of_state name s found =
    let (listed, same) =
      find-All (λ (q : LifecycleState). contains valid_statuses q.name ≡ true)
        (λ (q : LifecycleState). q.name == name) kanban_states s names_listed found in
    subst (λ n. contains valid_statuses n ≡ true) ((eq_iff s.name name).0 same) listed

-- Every move that the shipped model allows between two statuses is between statuses that the
-- `--status` filter accepts.
pub model-status_filter :
    (from to : String)
    → from ≢ to
    → is_legal_transition kanban_states from to ≡ TransitionVerdict.legal
    → (validate_status_filter from ≡ ok tt) × (validate_status_filter to ≡ ok tt)
unfolding validate_status_filter
model-status_filter from to ne h =
    elim ((is_legal_transition-legal_iff kanban_states from to).0 h) [
      | inl same ↦ absurd (ne same)
      | inr (f, t, hf, ht, edge) ↦ (rw (listed_of_state from f hf), rw (listed_of_state to t ht))
    ]

-- On a development board with the shipped model an item at `done`, which is terminal, may go back to
-- `backlog` and to `in_progress` with no force.
pub done_reopens :
    (b : BoardConfig) (item_type : Option String)
    → UsesModel b item_type
    → (is_terminal_state "done" ≡ true)
      × (validate_transition_for_type kanban_states b "done" "backlog" item_type ≡ ok tt)
      × (validate_transition_for_type kanban_states b "done" "in_progress" item_type ≡ ok tt)
unfolding validate_transition_for_type is_terminal_state is_legal_transition state kanban_states
    load_states check_states check_targets
done_reopens b item_type (dev, own) = (refl, rw (dev, own) refl, rw (dev, own) refl)
