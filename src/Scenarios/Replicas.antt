-- ===== src/Scenarios/Replicas.antt =====
-- A replica of a board that deletes its one item at position 1.
use arrow_kanban.Prelude.{
  ℕ, zero, suc, ◌≡◌, refl, String, true, false, Option, none, some, List, [], ◌∷◌, arith, ok, err,
  inl,
}
use arrow_kanban.Crud.{Env}
use arrow_kanban.Storage.{CommittedEvent}
use arrow_kanban.Events.{MutationEvent}
use arrow_kanban.Events.Effects.{Stores, replay_into}
use arrow_kanban.Replica.{
  schema_version, GapReason, Cause, ReplicaState, ReplicaError, ReplayFault, AggregateSnapshot,
  EngineExtension, Answers, Replica, read, detect_gap, epoch_regression, beyond_bounds,
  within_staleness_bound,
}
use arrow_kanban.Replica.Poll.{
  extension_part, restore_from, seed_extension, take_up, apply_event, apply_events, poll,
}
use arrow_kanban.Replica.Mirror.{IsCanonical, Mirrors}
use arrow_kanban.Replica.Mirror.Polls.{poll-Mirrors}
use arrow_kanban.Replica.Reads.{read-poll_partitioned, read-replay_failed}
use arrow_kanban.Replica.Levels.{read-poll_reachable}
use arrow_kanban.Replica.Unseeded.{seeded, read-poll_unseeded}
use arrow_kanban.Scenarios.Replays.{lookup, stores, deletion, deletes}
use arrow_kanban.Scenarios.Replays as Board

abbrev envs : ℕ → ℕ → Env
envs position = Board.envs

-- An extension that refuses every event.
abbrev methods : EngineExtension ℕ String ℕ String
methods = record {
  restore = λ dir x. (ok 0, x);
  replay = λ namespace kind payload x. (err "refused", x);
  snapshot = λ x. some x;
}

abbrev state_at : ℕ → Stores
state_at zero = stores
state_at (suc n) = (replay_into lookup (envs 1) deletion stores).1

abbrev deleted : CommittedEvent (MutationEvent String)
deleted = record { seq = 1; epoch = 1; event = deletion }

abbrev custom : CommittedEvent (MutationEvent String)
custom = record { seq = 1; epoch = 1; event = MutationEvent.extension "space" "kind" "payload" }

abbrev image : ℕ → AggregateSnapshot ℕ
image n = record { stores = state_at n; seq = n; schema = schema_version; ext = none }

abbrev replica : Option ℕ → Replica ℕ ℕ
replica extension = record {
  stores = stores;
  extension = extension;
  seq = 0;
  schema = schema_version;
  snapshot = image 0;
  state = ReplicaState.live;
  bound = record { max_staleness = 100; max_lag_seqs = none };
  last_confirmed_at = 1000;
  last_epoch = 0;
  detect_gaps = true;
}

abbrev answers : List (CommittedEvent (MutationEvent String)) → ℕ → Answers String ℕ String
answers tail now = record {
  canonical_committed_seq = ok 1;
  events_since = λ since. ok tail;
  bootstrap = ok (image 1);
  store_dir = some "dir";
  seed_since = λ since. err (ReplicaError.source_unreachable "down");
  now = now;
}

deleted-IsCanonical : IsCanonical methods lookup envs state_at deleted
deleted-IsCanonical =
    (omega arith, omega arith, λ i. (deletes i, (replay_into lookup (envs 1) deletion stores).1))

replica-Mirrors : Mirrors methods lookup envs state_at (replica none)
replica-Mirrors = record { ranged = omega arith; holds = refl; shows = refl }

poll-Mirrors_example :
    Mirrors methods lookup envs state_at
      (poll methods lookup envs (answers (deleted ∷ []) 1050) (replica none)).1
poll-Mirrors_example =
    poll-Mirrors methods lookup envs state_at (answers (deleted ∷ []) 1050) (replica none) refl
      (deleted-IsCanonical, tt) (omega arith, refl) replica-Mirrors

read-poll_reachable_example :
    let (done, r') = poll methods lookup envs (answers (deleted ∷ []) 1050) (replica none) in
    (done ≡ ok tt)
    × (r'.last_confirmed_at ≡ 1050)
    × (read 5000 r' ≡ ok r'.snapshot)
    × (r'.snapshot.seq ≡ 1)
    × (r'.snapshot.stores ≡ state_at 1)
read-poll_reachable_example =
    read-poll_reachable methods lookup envs state_at (answers (deleted ∷ []) 1050) (replica none) 1
      5000 {snap = image 1} {tail = deleted ∷ []} refl refl refl replica-Mirrors refl (omega arith)
      refl (deleted-IsCanonical, tt) (omega arith, tt) refl refl (omega arith, refl) refl refl

abbrev cut_off : ℕ → Answers String ℕ String
cut_off now = record (answers [] now) {
  canonical_committed_seq = err (ReplicaError.source_unreachable "down");
}

read-poll_partitioned_example :
    let (done, r') = poll methods lookup envs (cut_off 1101) (replica none) in
    (done ≡ ok tt) × (read 1200 r' ≡ err (ReplicaError.stale Cause.unreachable_too_long 1000 1200))
read-poll_partitioned_example =
    read-poll_partitioned methods lookup envs (cut_off 1101) (replica none) 1200 (inl refl)
      (omega arith)

refuses :
    (apply_events methods lookup envs (custom ∷ []) (replica (some 7))).0
    ≡ err (ReplicaError.replay (ReplayFault.in_extension "refused"))
unfolding apply_events apply_event extension_part
refuses = refl

custom_clean : detect_gap (custom ∷ []) 0 ≡ none
unfolding detect_gap
custom_clean = refl

custom_rises : epoch_regression 0 (custom ∷ []) ≡ none
unfolding epoch_regression
custom_rises = refl

read-replay_failed_example :
    let (done, r') = poll methods lookup envs (answers (custom ∷ []) 1050) (replica (some 7)) in
    (done ≡ err (ReplicaError.replay (ReplayFault.in_extension "refused")))
    × (read 900000 r' ≡ ok (image 0))
read-replay_failed_example =
    read-replay_failed methods lookup envs (answers (custom ∷ []) 1050) (replica (some 7)) 1 900000
      refl refl (omega arith) refl custom_clean custom_rises refuses

empty_gap : detect_gap {P = String} [] 0 ≡ some (GapReason.retention_expired 0 0)
unfolding detect_gap
empty_gap = refl

unseeded :
    (seeded methods lookup envs
      (answers [] 1050)
      (GapReason.retention_expired 0 0)
      (image 1)
      (replica (some 7))).0
    ≡ err (ReplicaError.source_unreachable "down")
unfolding seed_extension restore_from take_up
unseeded = refl

near :
    beyond_bounds 1050
      (seeded methods lookup envs
        (answers [] 1050)
        (GapReason.retention_expired 0 0)
        (image 1)
        (replica (some 7))).1
      1
    ≡ false
unfolding beyond_bounds within_staleness_bound seed_extension restore_from take_up
near = refl

read-poll_unseeded_example :
    let (first, r') = poll methods lookup envs (answers [] 1050) (replica (some 7)) in
    let (done, r'') = poll methods lookup envs (answers [] 1060) r' in
    (first ≡ ok tt)
    × (done ≡ ok tt)
    × (r''.seq ≡ 1)
    × (r''.last_confirmed_at ≡ 1060)
    × (read 2000 r'' ≡ ok (image 0))
read-poll_unseeded_example =
    read-poll_unseeded methods lookup envs (answers [] 1050) (answers [] 1060) (replica (some 7)) 1
      2000 {snap = image 1} refl refl (omega arith) refl empty_gap refl refl unseeded near refl
