-- ===== src/Handlers/Lawful.antt =====
-- server/src/handlers/core.rs: what an unforced move that succeeds has passed.
use arrow_kanban.Prelude.{
  String, ◌≡◌, ◌≢◌, refl, ◌==◌, true, false, Option, none, some, List, arith, contains,
  if◌then◌else◌, Result, ok, err, Result-cases, Bool-cases, inl, inr,
}
use arrow_kanban.Config.{BoardConfig}
use arrow_kanban.StateModel.{LifecycleState, TransitionVerdict, is_legal_transition}
use arrow_kanban.StateMachine.{
  TypeTransitionVerdict, type_transition_verdict, valid_statuses, validate_resolution,
  validate_status_filter,
}
use arrow_kanban.Crud.{Item, KanbanStore, Env}
use arrow_kanban.Crud.Rows.{get_item, live}
use arrow_kanban.Handlers.{
  Refusal, MoveRequest, MoveResponse, judge_transition, judge_move, check_claim, write_move,
  handle_move_typed,
}

module _ (model : List LifecycleState) (board_config_for : String → Option BoardConfig)
    (stamp : Option String → String → String → String)
    (read_stamp : String → Option (Option String)) where
  check_claim-reads : (req : MoveRequest) (s : KanbanStore) → (check_claim req s).1 ≡ s
  unfolding check_claim
  check_claim-reads req s = ground arith

  pub got :
      (s : KanbanStore) (id : String) (row : Item) → live s id ≡ some row → get_item s id ≡ ok row
  unfolding get_item
  got s id row h = ground arith

  module _ (e : Env) (req : MoveRequest) (s : KanbanStore) (row : Item)
      (unforced : req.force ≡ false) (h : get_item s req.id ≡ ok row) where
    abbrev move : Result Refusal MoveResponse × KanbanStore
    move = handle_move_typed model board_config_for stamp read_stamp e req s

    abbrev verdict : Result Refusal Unit
    verdict = judge_move model board_config_for stamp read_stamp row req.status

    -- A move that the judge refuses ends there.
    pub move-refused : {x : Refusal} {r : MoveResponse} → verdict ≡ err x → move.0 ≢ ok r
    unfolding handle_move_typed
    move-refused refusal done =
        elim (Result-cases (validate_resolution req.resolution req.status)) [
          | inl (_, fine) ↦ ground arith
          | inr (y, bad) ↦ ground arith
        ]

    -- One that the judge passes only writes.
    pub move-passed :
        {r : MoveResponse} → verdict ≡ ok tt → move.0 ≡ ok r → move ≡ write_move e req row.status s
    unfolding handle_move_typed
    move-passed pass done = elim (Result-cases (validate_resolution req.resolution req.status)) [
      | inl (_, fine) ↦ elim (Result-cases (check_claim req s).0) [
        | inl (_, free) ↦ ground (arith, check_claim-reads req s)
        | inr (y, held) ↦ absurd (ground arith)
      ]
      | inr (y, bad) ↦ absurd (ground arith)
    ]

  abbrev pub IsLawful : Item → String → Option BoardConfig → List String → Type 0
  IsLawful row to none targets =
      if row.board == "development"
      then is_legal_transition model row.status to ≢ TransitionVerdict.illegal targets
      else Unit
  IsLawful row to (some config) targets =
      if row.board == "development"
      then is_legal_transition model row.status to ≢ TransitionVerdict.illegal targets
      else type_transition_verdict model config row.status to row.item_type
        ≢ TypeTransitionVerdict.illegal targets

  judge_move-ok :
      (row : Item) (to : String) (config : Option BoardConfig) (targets : List String)
      → board_config_for row.board ≡ config
      → judge_move model board_config_for stamp read_stamp row to ≡ ok tt
      → (contains valid_statuses to ≡ true) × IsLawful row to config targets
  unfolding judge_move judge_transition validate_status_filter
  judge_move-ok row to none targets found pass = elim (Bool-cases (contains valid_statuses to)) [
    | inl known ↦ elim (Bool-cases (row.board == "development")) [
      | inl dev ↦ rw (known, dev) (refl, λ h. absurd (ground arith))
      | inr other ↦ rw (known, other) (refl, tt)
    ]
    | inr unknown ↦ absurd (ground arith)
  ]
  judge_move-ok row to (some config) targets found pass =
      elim (Bool-cases (contains valid_statuses to)) [
        | inl known ↦ elim (Bool-cases (row.board == "development")) [
          | inl dev ↦ rw (known, dev) (refl, λ h. absurd (ground arith))
          | inr other ↦ rw (known, other) (refl, λ h. absurd (ground arith))
        ]
        | inr unknown ↦ absurd (ground arith)
      ]

  write_move-from :
      (e : Env) (req : MoveRequest) (from : String) (s : KanbanStore) {r : MoveResponse}
      → (write_move e req from s).0 ≡ ok r
      → r.from ≡ from
  unfolding write_move
  write_move-from e req from s done = ground arith

  -- An unforced move that succeeds goes to a known status, and the reply has the status before. On
  -- the development board the model does not call it illegal; on another board the lifecycle of the
  -- item's type does not, where the configuration of the board is found, and nothing is said where
  -- it is not.
  pub handle_move_typed-IsLawful :
      (e : Env) (req : MoveRequest) (s : KanbanStore) (row : Item) (targets : List String)
      {r : MoveResponse}
      → req.force ≡ false
      → live s req.id ≡ some row
      → (handle_move_typed model board_config_for stamp read_stamp e req s).0 ≡ ok r
      → (contains valid_statuses req.status ≡ true)
        × (r.from ≡ row.status)
        × IsLawful row req.status (board_config_for row.board) targets
  handle_move_typed-IsLawful e req s row targets unforced h done =
      let at_row = got s req.id row h in
      elim (Result-cases (judge_move model board_config_for stamp read_stamp row req.status)) [
        | inr (x, refusal) ↦ absurd (move-refused e req s row unforced at_row refusal done)
        | inl (_, pass) ↦
            let run = move-passed e req s row unforced at_row pass done in
            let (valid, lawful) =
              judge_move-ok row req.status (board_config_for row.board) targets refl pass in
            (valid, write_move-from e req row.status s (rw run at done), lawful)
      ]
