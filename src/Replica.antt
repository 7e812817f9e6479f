-- ===== src/Replica.antt =====
-- server/src/replica.rs and server/src/snapshot.rs: a read-only replica of the committed board.
--
-- A replica asks its source once for each thing in a poll and reads its clock at most once: Answers
-- holds what it is told. The extension that it may hold is its methods, which are parameters. Times
-- are in milliseconds, and a position is a u64 and wraps.
pub mod Poll
pub mod Gaps
pub mod Mirror
pub mod Reads
pub mod Levels
pub mod Unseeded
use arrow_kanban.Prelude.{
  ℕ, ◌+◌, ◌-◌, ◌%◌, String, Bool, true, false, not, Option, none, some, List, [], ◌∷◌,
  if◌then◌else◌, Result, ok, err, ltb, leb, eqb,
}
use arrow_kanban.Crud.{Env}
use arrow_kanban.Storage.{CommittedEvent, seq_bound}
use arrow_kanban.Events.{MutationEvent}
use arrow_kanban.Events.Effects.{Stores, ReplayError, replay_into}

abbrev pub schema_version : ℕ
schema_version = 1

-- `max_staleness` in whole milliseconds.
pub record StalenessBound : Type 0 where
  pub max_staleness : ℕ
  pub max_lag_seqs : Option ℕ

pub data GapReason : Type 0 where
  -- expected and found
  dropped_event : ℕ → ℕ → GapReason
  -- the position held and the first that is available
  retention_expired : ℕ → ℕ → GapReason

-- Why currency is not confirmed: what the source prints as a text, with the numbers in it.
pub data Cause : Type 0 where
  -- the position of the source and the one applied
  source_rewind : ℕ → ℕ → Cause
  schema_differs : ℕ → ℕ → Cause
  epoch_regressed : ℕ → ℕ → ℕ → Cause
  unhealed_gap : ℕ → Cause
  unreachable_too_long : Cause
  resyncing_too_long : Cause
  failed_closed : Cause

pub data ReplicaState : Type 0 where
  live : ReplicaState
  resyncing : ℕ → GapReason → ReplicaState
  -- the cause, and the time of the last confirmation
  stale_refused : Cause → ℕ → ReplicaState

-- What a replay failed with: on the core stores, or in the extension.
pub data ReplayFault : Type 0 where
  in_core : ReplayError → ReplayFault
  in_extension : String → ReplayFault

pub data ReplicaError : Type 0 where
  -- the reason, the time of the last confirmation and the time of the read
  stale : Cause → ℕ → ℕ → ReplicaError
  source_unreachable : String → ReplicaError
  -- expected and found
  schema_mismatch : ℕ → ℕ → ReplicaError
  gap : ℕ → ℕ → ReplicaError
  -- the position, the epoch before it and its own
  split_brain : ℕ → ℕ → ℕ → ReplicaError
  replay : ReplayFault → ReplicaError

-- `AggregateSnapshot`: the stores, the position that they reflect, and the extension's tables.
pub record AggregateSnapshot (B : Type 0) : Type 0 where
  pub stores : Stores
  pub seq : ℕ
  pub schema : ℕ
  pub ext : Option B

-- The methods of an extension that a replica calls: its state is an `X`, a payload a `P`, its tables
-- a `B` and a directory a `D`.
pub record EngineExtension (X P B D : Type 0) : Type 0 where
  pub restore : D → X → Result String ℕ × X
  pub replay : String → String → P → X → Result String Unit × X
  pub snapshot : X → Option B

-- What the methods of a ReplicaSource and the clock answer during one poll.
pub record Answers (P B D : Type 0) : Type 0 where
  pub canonical_committed_seq : Result ReplicaError ℕ
  pub events_since : ℕ → Result ReplicaError (List (CommittedEvent (MutationEvent P)))
  pub bootstrap : Result ReplicaError (AggregateSnapshot B)
  pub store_dir : Option D
  -- `events_since` as the extension is seeded
  pub seed_since : ℕ → Result ReplicaError (List (CommittedEvent (MutationEvent P)))
  pub now : ℕ

pub record Replica (X B : Type 0) : Type 0 where
  pub stores : Stores
  pub extension : Option X
  pub seq : ℕ
  pub schema : ℕ
  pub snapshot : AggregateSnapshot B
  pub state : ReplicaState
  pub bound : StalenessBound
  pub last_confirmed_at : ℕ
  pub last_epoch : ℕ
  pub detect_gaps : Bool

abbrev pub empty_stores : Stores
empty_stores = record { store = record { items = []; runs = []; comments = [] }; relations = [] }

abbrev pub empty_snapshot : {B : Type 0} → AggregateSnapshot B
empty_snapshot = record { stores = empty_stores; seq = 0; schema = schema_version; ext = none }

module _ {X B : Type 0} where
  -- `mark_confirmed`
  unfoldable pub mark_confirmed : ℕ → Replica X B → Replica X B
  mark_confirmed now r = record r { last_confirmed_at = now; state = live }

  unfoldable pub enter_stale : Cause → Replica X B → Replica X B
  enter_stale cause r = record r { state = stale_refused cause r.last_confirmed_at }

  unfoldable pub within_staleness_bound : ℕ → Replica X B → Bool
  within_staleness_bound now r = leb (now - r.last_confirmed_at) r.bound.max_staleness

  unfoldable pub beyond_bounds : ℕ → Replica X B → ℕ → Bool
  unfolding within_staleness_bound
  beyond_bounds now r canonical =
      if within_staleness_bound now r
      then (elim r.bound.max_lag_seqs [ some limit ↦ ltb limit (canonical - r.seq) | none ↦ false ])
      else true

  unfoldable pub stale_err : ℕ → Cause → Replica X B → ReplicaError
  stale_err now cause r = stale cause r.last_confirmed_at now

  unfoldable pub last_stale_as_error : ℕ → Replica X B → ReplicaError
  unfolding stale_err
  last_stale_as_error now r = elim r.state [
    | stale_refused cause _ ↦ stale_err now cause r
    | _ ↦ stale_err now failed_closed r
  ]

  unfoldable pub read : ℕ → Replica X B → Result ReplicaError (AggregateSnapshot B)
  unfolding within_staleness_bound stale_err
  read now r = elim r.state [
    | live ↦ ok r.snapshot
    | resyncing _ _ ↦
        if within_staleness_bound now r
        then ok r.snapshot
        else err (stale_err now resyncing_too_long r)
    | stale_refused cause last_confirmed ↦ err (stale cause last_confirmed now)
  ]

  unfoldable pub on_unreachable : ℕ → Replica X B → Result ReplicaError Unit × Replica X B
  unfolding within_staleness_bound enter_stale
  on_unreachable now r =
      if within_staleness_bound now r
      then (ok tt, r)
      else (ok tt, enter_stale unreachable_too_long r)

module _ {P : Type 0} where
  -- The tail after its first event, which stands at `prev`.
  unfoldable pub find_hole : ℕ → List (CommittedEvent (MutationEvent P)) → Option GapReason
  find_hole prev [] = none
  find_hole prev (c ∷ cs) =
      let rest = find_hole c.seq cs in
      if eqb c.seq ((prev + 1) % seq_bound)
      then rest
      else some (dropped_event ((prev + 1) % seq_bound) c.seq)

  unfoldable pub detect_gap : List (CommittedEvent (MutationEvent P)) → ℕ → Option GapReason
  unfolding find_hole
  detect_gap [] seq = some (retention_expired seq 0)
  detect_gap (first ∷ rest) seq =
      if eqb first.seq ((seq + 1) % seq_bound)
      then find_hole first.seq rest
      else some (retention_expired seq first.seq)

  -- The first event whose epoch is below the one before it, with that epoch.
  unfoldable pub epoch_regression :
      ℕ → List (CommittedEvent (MutationEvent P)) → Option (ℕ × CommittedEvent (MutationEvent P))
  epoch_regression running [] = none
  epoch_regression running (c ∷ cs) =
      if ltb c.epoch running then some (running, c) else epoch_regression c.epoch cs

-- The positions that an unhealed gap is reported with.
unfoldable pub gap_positions : GapReason → ℕ × ℕ
gap_positions (dropped_event expected found) = (expected, found)
gap_positions (retention_expired have first_available) = ((have + 1) % seq_bound, first_available)
