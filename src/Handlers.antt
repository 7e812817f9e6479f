-- ===== src/Handlers.antt =====
-- server/src/handlers/core.rs: the commands that move, claim, bounce, requeue, ratify, comment on,
-- rank and delete items, over the store.
--
-- `model` is the loaded lifecycle and `board_config_for` gives the configuration of a board from its
-- file. A bounce's stamp is a JSON text: `stamp` writes it, and `read_stamp` gives the body hash of a
-- text that is one. A refusal has the code of its reply and what its text is about.
pub mod Claims
pub mod Lawful
pub mod Bounces
pub mod Relating
pub mod Updating
pub mod Triples
use arrow_kanban.Prelude.{
  ℕ, String, Bool, true, false, not, ◌&&◌, ◌||◌, ◌==◌, ◌<>◌, Option, none, some, List, [], ◌∷◌, eqb,
  if◌then◌else◌, Result, ok, err, is_ok, is_blank,
}
use mathlib.Core.List.{reverse}
use arrow_kanban.Prelude.Int.{ℤ}
use arrow_kanban.Config.{BoardConfig}
use arrow_kanban.StateModel.{LifecycleState, TransitionVerdict, is_legal_transition}
use arrow_kanban.StateMachine.{
  StateError, TypeTransitionVerdict, type_transition_verdict, validate_resolution,
  validate_status_filter,
}
use arrow_kanban.Crud.{Item, KanbanStore, CrudError, Env, later, Action}
use arrow_kanban.Crud.Rows.{get_item}
use arrow_kanban.Crud.Fields.{
  update_assignee, update_resolution, update_closed_by, update_rank, body_hash_of,
}
use arrow_kanban.Crud.Status.{
  RequeueOutcome, update_status, status_and_assignee, check_exclusive_claim, requeue_item,
  delete_item, run_reasons_landing,
}
use arrow_kanban.Crud.Ratify.{RatifyReport, ratify_phase}
use arrow_kanban.Crud.Comments.{add_comment}
use arrow_kanban.RelationVocab.{EdgeError}
use arrow_kanban.Relations.{RelationError}

-- `error_response`: the code of the reply, with what its message is about.
pub data Refusal : Type 0 where
  -- an error of the store, under this code
  store_refused : String → CrudError → Refusal
  -- INVALID_RESOLUTION
  invalid_resolution : StateError → Refusal
  -- UNKNOWN_STATUS
  unknown_status : String → Refusal
  -- ILLEGAL_TRANSITION: from, to and the legal targets
  illegal_transition : String → String → List String → Refusal
  -- CLAIM_HELD: the item and its holder
  claim_held : String → String → Refusal
  -- CLAIM_BOUNCED
  claim_bounced : String → Refusal
  -- REQUEUE_INVALID
  requeue_invalid : Refusal
  -- RATIFY_INCOMPLETE: the phase and how many items are left
  ratify_incomplete : String → ℕ → Refusal
  -- INVALID_TYPE
  invalid_type : String → Refusal
  -- INVALID_RELATION: a text that is no spec, or what is wrong with the edge
  malformed_relation : String → Refusal
  invalid_relation : EdgeError → Refusal
  -- an error of the relations, under this code
  relations_refused : String → RelationError → Refusal
  -- NOT_FOUND, of an id that is neither an item nor of an entity class
  no_subject : String → Refusal
  -- ENTITY_RELATE_ONLY: the id and its class
  entity_relate_only : String → Option String → Refusal

pub record MoveRequest : Type 0 where
  pub id : String
  pub status : String
  pub assignee : Option String
  pub force : Bool
  pub reason : Option String
  pub resolution : Option String
  pub closed_by : Option String

pub record MoveResponse : Type 0 where
  pub id : String
  pub from : String
  pub to : String
  pub resolution : Option String

-- A handler on the store: what it wrote before it refused stays written.
abbrev pub Handler : Type 0 → Type 0
Handler A = KanbanStore → Result Refusal A × KanbanStore

abbrev pub carry_on :
    {A B : Type 0}
    → Result Refusal A
    → (A → Handler B)
    → KanbanStore
    → Result Refusal B × KanbanStore
carry_on (ok a) f s = f a s
carry_on (err x) f s = (err x, s)

infixl 5 ◌>>=◌ ◌>>◌
abbrev pub ◌>>=◌ : {A B : Type 0} → Handler A → (A → Handler B) → Handler B
◌>>=◌ m f s = let (r, s') = m s in carry_on r f s'

abbrev pub ◌>>◌ : {A B : Type 0} → Handler A → Handler B → Handler B
m >> k = m >>= λ _. k

abbrev pub reply : {A : Type 0} → A → Handler A
reply a s = (ok a, s)

abbrev pub refuse : {A : Type 0} → Refusal → Handler A
refuse x s = (err x, s)

abbrev pub coded : {A : Type 0} → String → Result CrudError A → Result Refusal A
coded code (ok a) = ok a
coded code (err x) = err (store_refused code x)

-- `store.method(..).map_err(|e| error_response(.., code))?`
abbrev pub asks : {A : Type 0} → String → Action A → Handler A
asks code m s = let (r, s') = m s in (coded code r, s')

abbrev pub asks_for : {A : Type 0} → String → (KanbanStore → Result CrudError A) → Handler A
asks_for code f s = (coded code (f s), s)

-- `if let Some(v) = o { .. }`
abbrev pub given : Option String → (String → Handler Unit) → Handler Unit
given none f = reply tt
given (some v) f = f v

abbrev pub resolution_verdict : Result StateError Unit → Result Refusal Unit
resolution_verdict (ok tt) = ok tt
resolution_verdict (err x) = err (invalid_resolution x)

abbrev pub model_verdict : String → String → TransitionVerdict → Result Refusal Unit
model_verdict from to (TransitionVerdict.illegal targets) = err (illegal_transition from to targets)
model_verdict from to _ = ok tt

abbrev pub type_verdict : String → String → TypeTransitionVerdict → Result Refusal Unit
type_verdict from to (TypeTransitionVerdict.illegal targets) =
    err (illegal_transition from to targets)
type_verdict from to _ = ok tt

-- `move .. in_progress --assign X` is a claim.
unfoldable pub check_claim : MoveRequest → Handler Unit
unfolding check_exclusive_claim
check_claim req =
    if req.status == "in_progress"
    then given req.assignee (λ assignee.
      asks_for "CLAIM_CONFLICT" (λ s. check_exclusive_claim s req.id assignee req.force))
    else reply tt

-- From `update_status` on.
unfoldable pub write_move : Env → MoveRequest → String → Handler MoveResponse
unfolding update_status update_assignee update_resolution update_closed_by
write_move e req from = do
  asks "MOVE_FAILED" (update_status e req.id req.status req.assignee req.force req.reason)
  given req.assignee (λ a. asks "ASSIGN_FAILED" (update_assignee req.id (some a)))
  given req.resolution
      (λ r. asks "RESOLUTION_FAILED" (update_resolution (later 4 e) req.id (some r)))
  given req.closed_by (λ c. asks "CLOSED_BY_FAILED" (update_closed_by (later 5 e) req.id (some c)))
  reply (record { id = req.id; from = from; to = req.status; resolution = req.resolution })

abbrev pub same_hash : Option String → Option String → Bool
same_hash none none = true
same_hash (some a) (some b) = a == b
same_hash _ _ = false

-- The refusal of an item that another agent holds.
unfoldable pub check_holder : String → String → String × Option String → Result Refusal Unit
check_holder id agent (status, none) = ok tt
check_holder id agent (status, some holder) =
    if not (holder == "") && not (holder == agent) then err (claim_held id holder) else ok tt

abbrev pub claim_request : String → String → MoveRequest
claim_request id agent = record {
  id = id;
  status = "in_progress";
  assignee = some agent;
  force = false;
  reason = some "claimed (atomic claim verb)";
  resolution = none;
  closed_by = none;
}

abbrev pub bounce_request : String → String → MoveRequest
bounce_request id reason = record {
  id = id;
  status = "backlog";
  assignee = none;
  force = false;
  reason = some reason;
  resolution = none;
  closed_by = none;
}

abbrev pub or_none_text : Option String → String
or_none_text (some sha) = sha
or_none_text none = "none"

module _ (model : List LifecycleState) (board_config_for : String → Option BoardConfig)
    (stamp : Option String → String → String → String)
    (read_stamp : String → Option (Option String)) where
  -- The two blocks that judge an unforced move: by the model on the development board, by the
  -- lifecycle of the type on any other.
  unfoldable pub judge_transition : Item → String → Result Refusal Unit
  unfolding is_legal_transition type_transition_verdict
  judge_transition item to =
      if item.board == "development"
      then model_verdict item.status to (is_legal_transition model item.status to)
      else (elim (board_config_for item.board) [
        | none ↦ ok tt
        | some config ↦
            type_verdict item.status to
              (type_transition_verdict model config item.status to item.item_type)
      ])

  -- What an unforced move must pass before anything is written.
  unfoldable pub judge_move : Item → String → Result Refusal Unit
  unfolding validate_status_filter judge_transition
  judge_move item to =
      if is_ok (validate_status_filter to)
      then judge_transition item to
      else err (unknown_status to)

  unfoldable pub handle_move_typed : Env → MoveRequest → Handler MoveResponse
  unfolding validate_resolution get_item judge_move check_claim write_move
  handle_move_typed e req = do
    (λ s. (resolution_verdict (validate_resolution req.resolution req.status), s))
    item ← asks_for "NOT_FOUND" (λ s. get_item s req.id)
    (λ s. (if req.force then ok tt else judge_move item req.status, s))
    check_claim req
    write_move e req item.status

  -- The first stamp of a bounce among the reasons, the newest first.
  unfoldable pub newest_stamp : List (Option String) → Option (Option String)
  newest_stamp [] = none
  newest_stamp (none ∷ reasons) = newest_stamp reasons
  newest_stamp (some r ∷ reasons) = elim (read_stamp r) [
    | some sha ↦ some sha
    | none ↦ newest_stamp reasons
  ]

  -- The refusal of an item whose body is the one that its last bounce stamped.
  unfoldable pub check_bounced : String → Handler Unit
  unfolding run_reasons_landing newest_stamp body_hash_of
  check_bounced id s = elim (newest_stamp (reverse (run_reasons_landing s id "backlog"))) [
    | none ↦ (ok tt, s)
    | some stamped ↦ elim (body_hash_of s id) [
      | err x ↦ (err (store_refused "NOT_FOUND" x), s)
      | ok current ↦ if same_hash stamped current then (err (claim_bounced id), s) else (ok tt, s)
    ]
  ]

  unfoldable pub handle_claim_typed : Env → String → String → Handler MoveResponse
  unfolding status_and_assignee check_holder check_bounced handle_move_typed
  handle_claim_typed e id agent = do
    held ← asks_for "NOT_FOUND" (λ s. status_and_assignee s id)
    (λ s. (check_holder id agent held, s))
    check_bounced id
    handle_move_typed e (claim_request id agent)

  -- The reply is the status before, the body hash and the stamp.
  unfoldable pub handle_bounce_typed :
      Env → String → String → String → Handler (String × Option String × String)
  unfolding body_hash_of handle_move_typed update_assignee add_comment
  handle_bounce_typed e id agent reason = do
    body_sha ← asks_for "NOT_FOUND" (λ s. body_hash_of s id)
    moved ← handle_move_typed e (bounce_request id (stamp body_sha agent reason))
    asks "ASSIGN_FAILED" (update_assignee id none)
    asks "COMMENT_FAILED" (
        add_comment (later 6 e) id
          ("[workit bounce — "
            <> agent
            <> ", server-verb, body-sha:"
            <> or_none_text body_sha
            <> "] "
            <> reason)
          (some agent))
    reply (moved.from, body_sha, stamp body_sha agent reason)

unfoldable pub handle_requeue_typed :
    Env → String → Option String → Option String → String → ℤ → String → Handler RequeueOutcome
unfolding requeue_item
handle_requeue_typed e id agent session reason limit dead_letter_tag =
    if is_blank reason
    then refuse requeue_invalid
    else asks "REQUEUE_FAILED" (requeue_item e id agent session reason limit dead_letter_tag)

unfoldable pub handle_ratify_typed : Env → String → Handler RatifyReport
unfolding ratify_phase
handle_ratify_typed e phase_tag = do
  report ← asks "RATIFY_FAILED" (ratify_phase e phase_tag)
  if eqb report.remaining_pending 0
      then reply report
      else refuse (ratify_incomplete phase_tag report.remaining_pending)

unfoldable pub handle_comment_typed : Env → String → String → Option String → Handler Unit
unfolding get_item add_comment
handle_comment_typed e id text agent = do
  asks_for "NOT_FOUND" (λ s. get_item s id)
  asks "COMMENT_FAILED" (add_comment e id text agent)
  reply tt

unfoldable pub handle_rank_typed : Env → String → Option ℤ → Handler Unit
unfolding get_item update_rank
handle_rank_typed e id rank = do
  asks_for "NOT_FOUND" (λ s. get_item s id)
  asks "RANK_FAILED" (update_rank e id rank)

unfoldable pub handle_delete_typed : String → Handler Unit
unfolding delete_item
handle_delete_typed id = asks "DELETE_FAILED" (delete_item id)
