-- ===== src/Storage.antt =====
-- server/src/storage.rs: the commit log and the checkpoint derived from it.
--
-- `S` is the state that a checkpoint holds (the items, runs, comments and relations), `E` the type
-- of events. The directory is what its files hold. A step that may fail takes its outcome from
-- `Faults`. A sequence number is a u64 and wraps.
pub mod Commit
pub mod Recovery
use arrow_kanban.Prelude.{
  ℕ, zero, suc, ◌+◌, ◌%◌, ◌^◌, String, Bool, true, false, Option, none, some, List, [], ◌∷◌, ◌++◌,
  if◌then◌else◌, Result, ok, err, ltb, leb, ◌>>=◌,
}

abbrev pub seq_bound : ℕ
seq_bound = 2 ^ 64

pub data StoreError : Type 0 where
  log : String → StoreError
  checkpoint : String → StoreError
  decode : String → StoreError

-- A committed event: also what a line of the log decodes to, an absent epoch as 0.
pub record CommittedEvent (E : Type 0) : Type 0 where
  pub seq : ℕ
  pub epoch : ℕ
  pub event : E

-- A line of the log that is not blank: one that decodes, or one that does not.
pub data LogLine (E : Type 0) : Type 0 where
  entry : CommittedEvent E → LogLine E
  torn : String → LogLine E

-- The store directory: the lines of the event log, what the checkpoint files hold, the sequence
-- number of the manifest if it decodes, and that of the legacy marker.
pub record Directory (S E : Type 0) : Type 0 where
  pub lines : List (LogLine E)
  pub files : S
  pub manifest : Option ℕ
  pub marker : Option ℕ

pub record ParquetBackend (S E : Type 0) : Type 0 where
  pub dir : Directory S E
  pub committed_seq : ℕ

-- How the steps of one commit end. `append`: the error and the lines that it leaves at the end of
-- the log. `save`: the error and what the checkpoint files hold after it.
pub record Faults (S E : Type 0) : Type 0 where
  pub append : Option (String × List (LogLine E))
  pub truncates : Bool
  pub save : Option (String × S)
  pub publishes : Bool

module _ {E : Type 0} where
  -- A line written after one that lost its end continues it.
  unfoldable pub add_line : List (LogLine E) → LogLine E → List (LogLine E)
  add_line [] x = x ∷ []
  add_line (torn t ∷ []) x = torn t ∷ []
  add_line (y ∷ ys) x = y ∷ add_line ys x

  unfoldable pub scan_from : ℕ → List (LogLine E) → Result StoreError ℕ
  scan_from high [] = ok high
  scan_from high (torn t ∷ ls) = err (decode t)
  scan_from high (entry c ∷ ls) = scan_from (if ltb high c.seq then c.seq else high) ls

  unfoldable pub collect_since : ℕ → List (LogLine E) → Result StoreError (List (CommittedEvent E))
  collect_since since [] = ok []
  collect_since since (torn t ∷ ls) = err (decode t)
  collect_since since (entry c ∷ ls) =
      collect_since since ls >>= λ rest. ok (if ltb since c.seq then c ∷ rest else rest)

  -- `sort_by_key`, stable.
  unfoldable pub insert_by_seq :
      CommittedEvent E → List (CommittedEvent E) → List (CommittedEvent E)
  insert_by_seq c [] = c ∷ []
  insert_by_seq c (d ∷ ds) = if leb c.seq d.seq then c ∷ d ∷ ds else d ∷ insert_by_seq c ds

  unfoldable pub sort_by_seq : List (CommittedEvent E) → List (CommittedEvent E)
  sort_by_seq [] = []
  sort_by_seq (c ∷ cs) = insert_by_seq c (sort_by_seq cs)

  -- `truncate_log` to the lines before the append, where it takes effect.
  abbrev pub truncate_log : Bool → List (LogLine E) → List (LogLine E) → List (LogLine E)
  truncate_log true before after = before
  truncate_log false before after = after

module _ {S E : Type 0} where
  -- The largest sequence number. A log that is absent has no lines.
  unfoldable pub scan_high_water : Directory S E → Result StoreError ℕ
  scan_high_water d = scan_from zero d.lines

  unfoldable pub read_checkpoint_high_water : Directory S E → ℕ
  read_checkpoint_high_water d = elim d.manifest [
    | some n ↦ n
    | none ↦ elim d.marker [ some n ↦ n | none ↦ zero ]
  ]

  -- `events_since`
  unfoldable pub read_events_since : Directory S E → ℕ → Result StoreError (List (CommittedEvent E))
  read_events_since d since = collect_since since d.lines >>= λ cs. ok (sort_by_seq cs)

  abbrev pub next_seq : ParquetBackend S E → ℕ
  next_seq b = (b.committed_seq + 1) % seq_bound

  -- From the save of the checkpoint on: `appended` is the log after the barrier.
  abbrev pub checkpoint_from :
      ParquetBackend S E
      → Faults S E
      → S
      → List (LogLine E)
      → Result StoreError ℕ × ParquetBackend S E
  checkpoint_from b faults state appended =
      let d = b.dir in
      elim faults.save [
        | some (e, left) ↦ (
          err (checkpoint e),
          record b {
            dir = record d { lines = truncate_log faults.truncates d.lines appended; files = left };
          },
        )
        | none ↦ (
          ok (next_seq b),
          record {
            dir = record d {
              lines = appended;
              files = state;
              manifest = if faults.publishes then some (next_seq b) else d.manifest;
            };
            committed_seq = next_seq b;
          },
        )
      ]

  unfoldable pub commit :
      ParquetBackend S E → Faults S E → S → ℕ → E → Result StoreError ℕ × ParquetBackend S E
  unfolding add_line
  commit b faults state epoch event =
      let d = b.dir in
      elim faults.append [
        | some (e, left) ↦ (
          err (log e),
          record b {
            dir = record d { lines = truncate_log faults.truncates d.lines (d.lines ++ left) };
          },
        )
        | none ↦
            checkpoint_from b faults state
              (add_line d.lines (entry (record { seq = next_seq b; epoch = epoch; event = event })))
      ]

  module _ (replay_into : E → S → Result String S) where
    -- The loop of `load` over the tail.
    unfoldable pub replay_all : S → List (CommittedEvent E) → Result StoreError S
    replay_all s [] = ok s
    replay_all s (c ∷ cs) = elim (replay_into c.event s) [
      | ok t ↦ replay_all t cs
      | err e ↦ err (checkpoint e)
    ]

    -- The files brought up by the events that they do not reflect.
    unfoldable pub replay_tail : Directory S E → Result StoreError S
    replay_tail d =
        read_events_since d (read_checkpoint_high_water d) >>= λ tail. replay_all d.files tail

    -- `load`, of checkpoint files that can be read.
    unfoldable pub load : ParquetBackend S E → Result StoreError (S × ℕ) × ParquetBackend S E
    unfolding read_checkpoint_high_water
    load b = elim (scan_high_water b.dir) [
      | err e ↦ (err e, b)
      | ok committed ↦ (
        if ltb (read_checkpoint_high_water b.dir) committed
            then (replay_tail b.dir >>= λ s. ok (s, committed))
            else ok (b.dir.files, committed),
        record b { committed_seq = committed },
      )
    ]
