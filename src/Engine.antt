-- ===== src/Engine.antt =====
-- server/src/engine.rs: `apply`, the way of a command to its handler and of its event to the log.
--
-- The commands, replies, states and events are types. What the engine calls is a parameter: the
-- verb of a command, whether it is a mutation, its handler, and the event that a command and its
-- reply make. The checkpoint of an extension after a commit changes nothing here.
pub mod Steps
pub mod Durable
pub mod Degraded
use arrow_kanban.Prelude.{
  ℕ, String, Bool, true, false, Option, none, some, if◌then◌else◌, Result, ok, err, ◌<>◌,
}
use arrow_kanban.Prelude.Decimal.{show}
use arrow_kanban.Lease.{LocalWriterLease, OwnerFile, LeaseError, unavailable, corrupt, is_current}
use arrow_kanban.Storage.{StoreError, log, checkpoint, decode, ParquetBackend, Faults, commit}
use arrow_kanban.Health.{HealthGate, admit_mutation, record_persist_failure, record_persist_success}

-- `Display` of the errors.
abbrev pub show_lease_error : LeaseError → String
show_lease_error (unavailable m) = "writer lease unavailable: " <> m
show_lease_error (corrupt m) = "writer lease record corrupt: " <> m

abbrev pub show_store_error : StoreError → String
show_store_error (log e) = "commit-log append failed: " <> e
show_store_error (checkpoint e) = "checkpoint error: " <> e
show_store_error (decode e) = "corrupt commit-log entry: " <> e

pub data Code : Type 0 where
  store_degraded writer_fenced store_not_durable : Code

-- What a client is sent: an error of the engine with its code, the reply of the handler, or the
-- error that the handler encoded.
pub data Answer (Reply : Type 0) : Type 0 where
  refused : String → Code → Answer Reply
  replied : Reply → Answer Reply
  failed : String → Answer Reply

-- What the engine meets during one command: the owner file of the lease, the clock at the gate and
-- after the commit, the error of the canary write if it fails, and how the steps of a commit end.
pub record World (S E : Type 0) : Type 0 where
  pub owner_file : OwnerFile
  pub now : ℕ
  pub now_after : ℕ
  pub probe : Option String
  pub faults : Faults S E

pub record KanbanEngine (S E : Type 0) : Type 0 where
  pub state : S
  pub health : HealthGate
  pub lease : LocalWriterLease
  pub backend : ParquetBackend S E

-- What the engine calls.
pub record Handlers (S E Command Reply : Type 0) : Type 0 where
  pub verb : Command → String
  pub is_mutation : Command → Bool
  pub route : Command → S → Result String Reply × S
  pub event_of : Command → Reply → Option E

abbrev pub degraded_text : String → ℕ → String
degraded_text reason start =
    "REFUSED — the kanban store is not accepting durable writes ("
    <> reason
    <> "). Your change was NOT applied. Reads still work. Free the underlying problem (usually a full disk); the server re-probes and recovers automatically. [server session start_ms="
    <> show start
    <> " — compare via pipeline-health to tell a restart from a recovery]"

abbrev pub fenced_text : String → String
fenced_text verb =
    "'" <> verb
    <> "' was REFUSED — this writer is FENCED: a newer writer holds the lease (the epoch moved past the one this process holds). Your change was NOT applied and is NOT durable. Re-acquire the lease before writing."

abbrev pub unverified_text : String → String → String
unverified_text verb e =
    "'" <> verb <> "' was REFUSED — the writer lease could not be verified (" <> e
    <> "); refusing to commit rather than risk a split-brain write. No change was applied."

abbrev pub lost_text : String → String → ℕ → String
lost_text verb e start =
    "'"
    <> verb
    <> "' was applied in memory but COULD NOT BE COMMITTED ("
    <> e
    <> "). Treat this write as LOST — it will not survive a restart. The server is now DEGRADED and further mutations are refused until the store accepts writes again. [server session start_ms="
    <> show start
    <> " — after recovery, compare via pipeline-health; a CHANGED value means the server restarted and this write is gone (redo it); UNCHANGED means the in-memory write was flushed (redoing DUPLICATES).]"

module _ {S E : Type 0} where
  -- The commit of an event, or the refusal to acknowledge a mutation without one.
  abbrev pub commit_event :
      World S E → String → Option E → KanbanEngine S E → Result String ℕ × ParquetBackend S E
  commit_event w verb none k = (
    err (
        "'" <> verb <> "' mutated state but produced no event — refusing to ack an unlogged write"),
    k.backend,
  )
  commit_event w verb (some ev) k =
      let (r, b) = commit k.backend w.faults k.state k.lease.held ev in
      (elim r [ ok n ↦ ok n | err e ↦ err (show_store_error e) ], b)

  -- The answer to a mutation once its commit has ended.
  abbrev pub settle :
      {Reply : Type 0}
      → World S E
      → String
      → Reply
      → Result String ℕ
      → KanbanEngine S E
      → Answer Reply × KanbanEngine S E
  settle w verb reply (ok n) k =
      (replied reply, record k { health = record_persist_success k.health })
  settle w verb reply (err e) k =
      let g = record_persist_failure w.now_after verb e k.health in
      (refused (lost_text verb e g.session_start_ms) store_not_durable, record k { health = g })

module _ {S E Command Reply : Type 0} where
  -- From the answer of the handler on.
  unfoldable pub conclude :
      Handlers S E Command Reply
      → World S E
      → Command
      → Result String Reply
      → KanbanEngine S E
      → Answer Reply × KanbanEngine S E
  conclude h w cmd (err bytes) k = (failed bytes, k)
  conclude h w cmd (ok reply) k =
      if h.is_mutation cmd
      then (let (r, b) = commit_event w (h.verb cmd) (h.event_of cmd reply) k in
          settle w (h.verb cmd) reply r (record k { backend = b }))
      else (replied reply, k)

  unfoldable pub execute :
      Handlers S E Command Reply
      → World S E
      → Command
      → KanbanEngine S E
      → Answer Reply × KanbanEngine S E
  execute h w cmd k =
      let (r, s) = h.route cmd k.state in conclude h w cmd r (record k { state = s })

  -- The fence, then the handler.
  unfoldable pub fence :
      Handlers S E Command Reply
      → World S E
      → Command
      → KanbanEngine S E
      → Answer Reply × KanbanEngine S E
  fence h w cmd k = elim (is_current k.lease w.owner_file) [
    | ok current ↦
        if current then execute h w cmd k else (refused (fenced_text (h.verb cmd)) writer_fenced, k)
    | err e ↦ (refused (unverified_text (h.verb cmd) (show_lease_error e)) writer_fenced, k)
  ]

  -- What follows the gate's answer.
  abbrev pub admitted :
      Handlers S E Command Reply
      → World S E
      → Command
      → Result String Unit
      → KanbanEngine S E
      → Answer Reply × KanbanEngine S E
  admitted h w cmd (ok tt) k = fence h w cmd k
  admitted h w cmd (err reason) k =
      (refused (degraded_text reason k.health.session_start_ms) store_degraded, k)

  unfoldable pub apply :
      Handlers S E Command Reply
      → World S E
      → Command
      → KanbanEngine S E
      → Answer Reply × KanbanEngine S E
  apply h w cmd k =
      if h.is_mutation cmd
      then (let (r, g) = admit_mutation w.now w.probe k.health in
          admitted h w cmd r (record k { health = g }))
      else execute h w cmd k
