-- ===== src/Crud/Status.antt =====
-- src/crud.rs: moves, claims, requeues and deletion.
pub mod Laws
pub mod Claims
pub mod Requeue
pub mod Closure
use arrow_kanban.Prelude.{
  ℕ, String, Bool, true, false, not, ◌&&◌, ◌||◌, Option, none, some, List, [], ◌∷◌, ◌++◌, ◌==◌,
  ◌<>◌, if◌then◌else◌, Result, ok, err, any, keep,
}
use arrow_kanban.Prelude.Int.{ℤ, pos, leb_ℤ, add_one_i32}
use arrow_kanban.Prelude.Decimal.{show_ℤ}
use arrow_kanban.StateMachine.{is_terminal_state}
use arrow_kanban.Crud.{
  Item, Run, KanbanStore, CrudError, not_found, claim_conflict, invalid_requeue, Env, later, Action,
  pure, throw, reads, continue, ◌>>=◌, ◌>>◌,
}
use arrow_kanban.Crud.Rows.{get_item, modify}
use arrow_kanban.Crud.Fields.{
  ListColumn, read_field, update_assignee, update_resolution, update_closed_by, attempt_count,
  set_attempt_count, add_to_list_field,
}

-- `record_run`: one row more in the runs table.
unfoldable pub record_run :
    Env → String → Option String → String → Option String → Bool → Option String → Action Unit
record_run e item_id from to agent forced reason s = (
  ok tt,
  record s {
    runs =
        s.runs
        ++ record {
          run_id = e.uuid 0;
          item_id = item_id;
          from_status = from;
          to_status = to;
          timestamp = e.now 0;
          by_agent = agent;
          forced = forced;
          reason = reason;
        }
          ∷ [];
  },
)

-- The status that `find_item_mut` returns beside the place of the row.
unfoldable pub status_of : KanbanStore → String → Result CrudError String
status_of s id = read_field (λ (row : Item). row.status) (get_item s id)

-- The closure fields are cleared unless the new status is terminal.
unfoldable pub clear_closure : Env → String → String → Action Unit
clear_closure e id new_status =
    if is_terminal_state new_status
    then pure tt
    else do update_resolution e id none; update_closed_by (later 1 e) id none

unfoldable pub update_status :
    Env → String → String → Option String → Bool → Option String → Action String
update_status e id new_status agent forced reason = do
  old ← reads (λ s. status_of s id)
  modify id (λ row. record row { status = new_status; updated_at = some (e.now 0) })
  record_run (later 1 e) id (some old) new_status agent forced reason
  clear_closure (later 2 e) id new_status
  pure old

-- An empty assignee reads as none.
abbrev pub assignee_of : Item → Option String
assignee_of row = elim row.assignee [ none ↦ none | some a ↦ if a == "" then none else some a ]

unfoldable pub status_and_assignee :
    KanbanStore → String → Result CrudError (String × Option String)
status_and_assignee s id =
    read_field (λ (row : Item). (row.status, assignee_of row)) (get_item s id)

-- The test of `check_exclusive_claim` on what it read.
abbrev pub claim_verdict :
    String → String → Result CrudError (String × Option String) → Result CrudError Unit
claim_verdict id new_assignee (err x) = err x
claim_verdict id new_assignee (ok (status, none)) = ok tt
claim_verdict id new_assignee (ok (status, some current)) =
    if status == "in_progress" && not (current == new_assignee)
    then err (claim_conflict id current new_assignee)
    else ok tt

unfoldable pub check_exclusive_claim : KanbanStore → String → String → Bool → Result CrudError Unit
check_exclusive_claim s id new_assignee forced =
    if forced then ok tt else claim_verdict id new_assignee (status_and_assignee s id)

pub record RequeueOutcome : Type 0 where
  pub id : String
  pub attempts : ℤ
  pub status : String
  pub dead_lettered : Bool

abbrev pub requeue_reason : ℤ → Option String → String → String
requeue_reason n (some session) reason =
    "requeue #" <> show_ℤ n <> " (session " <> session <> "): " <> reason
requeue_reason n none reason = "requeue #" <> show_ℤ n <> ": " <> reason

-- The status that a requeue lands on.
abbrev pub landing : Bool → String
landing true = "blocked"
landing false = "backlog"

-- From `let attempts` on: `n` is the count after this requeue.
unfoldable pub release :
    Env
    → String
    → Option String
    → Option String
    → String
    → ℤ
    → Bool
    → String
    → Action RequeueOutcome
release e id agent session reason n dead tag = do
  update_status e id (landing dead) agent false (some (requeue_reason n session reason))
  update_assignee id none
  set_attempt_count id n
  if dead then add_to_list_field (later 4 e) id ListColumn.tags tag else pure tt
  pure (record { id = id; attempts = n; status = landing dead; dead_lettered = dead })

-- The part of a requeue that runs once the item is known to be claimed.
unfoldable pub requeue_claimed :
    Env → String → Option String → Option String → String → ℤ → String → Action RequeueOutcome
requeue_claimed e id agent session reason limit tag = do
  before ← reads (λ s. attempt_count s id)
  release e id agent session reason (add_one_i32 before) (leb_ℤ limit (add_one_i32 before)) tag

-- `limit` is the source's `cap`.
unfoldable pub requeue_item :
    Env → String → Option String → Option String → String → ℤ → String → Action RequeueOutcome
unfolding requeue_claimed
requeue_item e id agent session reason limit tag =
    if leb_ℤ (pos 1) limit
    then (reads (λ s. status_of s id) >>= λ status.
        if status == "in_progress"
        then requeue_claimed e id agent session reason limit tag
        else throw (
            invalid_requeue (
              id <> " is '" <> status
              <> "', not in_progress — requeue releases a claim, and there is no claim to release")))
    else throw (invalid_requeue ("cap must be >= 1, got " <> show_ℤ limit))

-- A deleted row stays in the table.
unfoldable pub delete_item : String → Action Unit
delete_item id = modify id (λ row. record row { deleted = true })

unfoldable pub reasons_landing : String → String → List Run → List (Option String)
reasons_landing id to_status [] = []
reasons_landing id to_status (r ∷ rs) =
    let rest = reasons_landing id to_status rs in
    if r.item_id == id && r.to_status == to_status then r.reason ∷ rest else rest

-- The reasons of the runs that landed an item on a status, oldest first.
unfoldable pub run_reasons_landing : KanbanStore → String → String → List (Option String)
unfolding reasons_landing
run_reasons_landing s id to_status = reasons_landing id to_status s.runs
