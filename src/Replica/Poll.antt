-- ===== src/Replica/Poll.antt =====
-- server/src/replica.rs: how a replica is seeded, and how one poll catches it up.
--
-- `methods` are those of the extension, `lookup` the vocabulary, and `envs` the clock readings and
-- digests of the replay of the event at a position.
use arrow_kanban.Prelude.{
  ℕ, String, Bool, true, false, Option, none, some, List, [], ◌∷◌, if◌then◌else◌, Result, ok, err,
  ltb, eqb,
}
use arrow_kanban.Crud.{Env}
use arrow_kanban.Storage.{CommittedEvent}
use arrow_kanban.Events.{MutationEvent}
use arrow_kanban.Events.Effects.{ReplayError, replay_into}
use arrow_kanban.Replica.{
  schema_version, StalenessBound, GapReason, Cause, ReplicaState, ReplayFault, ReplicaError,
  AggregateSnapshot, EngineExtension, Answers, Replica, empty_stores, empty_snapshot,
  mark_confirmed, enter_stale, beyond_bounds, last_stale_as_error, on_unreachable, detect_gap,
  epoch_regression, gap_positions,
}

-- Namespace, kind and payload of an extension event.
unfoldable pub extension_part : {P : Type 0} → MutationEvent P → Option (String × String × P)
extension_part (MutationEvent.extension namespace kind payload) = some (namespace, kind, payload)
extension_part _ = none

abbrev pub in_extension_if : {A : Type 0} → Result String A → Result ReplicaError A
in_extension_if (ok a) = ok a
in_extension_if (err e) = err (ReplicaError.replay (ReplayFault.in_extension e))

abbrev pub in_core_if : Result ReplayError Unit → Result ReplicaError Unit
in_core_if (ok tt) = ok tt
in_core_if (err e) = err (ReplicaError.replay (ReplayFault.in_core e))

-- The errors of a re-bootstrap that are propagated.
unfoldable pub is_fatal : ReplicaError → Bool
is_fatal (ReplicaError.schema_mismatch _ _) = true
is_fatal (ReplicaError.replay _) = true
is_fatal _ = false

module _ {X P B D : Type 0} (methods : EngineExtension X P B D) (lookup : String → Option String)
    (envs : ℕ → ℕ → Env) where
  abbrev pub Event : Type 0
  Event = CommittedEvent (MutationEvent P)

  -- A method on `&mut self` that may fail: what it wrote before stays written.
  abbrev pub Outcome : Type 0
  Outcome = Result ReplicaError Unit × Replica X B

  unfoldable pub publish : Replica X B → Replica X B
  publish r = record r {
    snapshot = record {
      stores = r.stores;
      seq = r.seq;
      schema = schema_version;
      ext = elim r.extension [ some x ↦ methods.snapshot x | none ↦ none ];
    };
  }

  -- The loop of `seed_extension`: core events are skipped.
  unfoldable pub seed_events : List Event → X → Result ReplicaError Unit × X
  unfolding extension_part
  seed_events [] x = (ok tt, x)
  seed_events (c ∷ cs) x = elim (extension_part c.event) [
    | none ↦ seed_events cs x
    | some (namespace, kind, payload) ↦
        let (done, x') = methods.replay namespace kind payload x in
        elim done [
          | ok _ ↦ seed_events cs x'
          | err e ↦ (err (ReplicaError.replay (ReplayFault.in_extension e)), x')
        ]
  ]

  unfoldable pub restore_from : Option D → X → Result String ℕ × X
  restore_from (some dir) x = methods.restore dir x
  restore_from none x = (ok 0, x)

  unfoldable pub seed_extension : Answers P B D → Replica X B → Outcome
  unfolding seed_events restore_from
  seed_extension a r = elim r.extension [
    | none ↦ (ok tt, r)
    | some x ↦
        let (restored, x') = restore_from a.store_dir x in
        elim restored [
          | err e ↦ (
            err (ReplicaError.replay (ReplayFault.in_extension e)),
            record r { extension = some x' },
          )
          | ok ext_seq ↦ elim (a.seed_since ext_seq) [
            | err e ↦ (err e, record r { extension = some x' })
            | ok tail ↦
                let (done, seeded) = seed_events tail x' in
                (done, record r { extension = some seeded })
          ]
        ]
  ]

  -- The stores and the position of a snapshot; the epoch to compare with is 0 again.
  unfoldable pub take_up : AggregateSnapshot B → Replica X B → Replica X B
  take_up snap r = record r {
    seq = snap.seq;
    schema = snap.schema;
    stores = snap.stores;
    last_epoch = 0;
  }

  -- The end of `bootstrap_state`.
  unfoldable pub confirm_seeded : ℕ → Outcome → Outcome
  unfolding mark_confirmed publish
  confirm_seeded now (ok tt, r) = (ok tt, publish (mark_confirmed now r))
  confirm_seeded now (err e, r) = (err e, r)

  unfoldable pub bootstrap_state : Answers P B D → Replica X B → Outcome
  unfolding enter_stale take_up seed_extension confirm_seeded
  bootstrap_state a r = elim a.bootstrap [
    | err e ↦ (err e, r)
    | ok snap ↦
        if eqb snap.schema schema_version
        then confirm_seeded a.now (seed_extension a (take_up snap r))
        else (
          err (ReplicaError.schema_mismatch schema_version snap.schema),
          enter_stale (Cause.schema_differs schema_version snap.schema) r,
        )
  ]

  -- `with_clock`
  unfoldable pub open_replica :
      StalenessBound → Option X → Bool → Answers P B D → Result ReplicaError (Replica X B)
  unfolding bootstrap_state
  open_replica bound extension detect_gaps a =
      let (done, r) = bootstrap_state a (record {
        stores = empty_stores;
        extension = extension;
        seq = 0;
        schema = schema_version;
        snapshot = empty_snapshot;
        state = ReplicaState.live;
        bound = bound;
        last_confirmed_at = 0;
        last_epoch = 0;
        detect_gaps = detect_gaps;
      }) in
      elim done [ ok _ ↦ ok r | err e ↦ err e ]

  -- The body of the loop of `apply_tail`, up to the two assignments.
  unfoldable pub apply_event : Event → Replica X B → Outcome
  unfolding extension_part replay_into
  apply_event c r = elim (extension_part c.event) [
    | some (namespace, kind, payload) ↦ elim r.extension [
      | none ↦ (ok tt, r)
      | some x ↦
          let (done, x') = methods.replay namespace kind payload x in
          (in_extension_if done, record r { extension = some x' })
    ]
    | none ↦
        let (done, stores) = replay_into lookup (envs c.seq) c.event r.stores in
        (in_core_if done, record r { stores = stores })
  ]

  unfoldable pub apply_events : List Event → Replica X B → Outcome
  unfolding apply_event
  apply_events [] r = (ok tt, r)
  apply_events (c ∷ cs) r =
      let (done, r') = apply_event c r in
      elim done [
        | ok _ ↦ apply_events cs (record r' { seq = c.seq; last_epoch = c.epoch })
        | err e ↦ (err e, r')
      ]

  unfoldable pub publish_applied : Outcome → Outcome
  unfolding publish
  publish_applied (ok tt, r) = (ok tt, publish r)
  publish_applied (err e, r) = (err e, r)

  unfoldable pub apply_tail : List Event → Replica X B → Outcome
  unfolding epoch_regression enter_stale apply_events publish_applied
  apply_tail tail r = elim (epoch_regression r.last_epoch tail) [
    | some (running, c) ↦ (
      err (ReplicaError.split_brain c.seq running c.epoch),
      enter_stale (Cause.epoch_regressed c.seq running c.epoch) r,
    )
    | none ↦ publish_applied (apply_events tail r)
  ]

  -- What `resync` makes of the end of the re-bootstrap.
  unfoldable pub after_bootstrap : Answers P B D → GapReason → ℕ → Outcome → Outcome
  unfolding is_fatal beyond_bounds last_stale_as_error gap_positions enter_stale
  after_bootstrap a reason canonical (ok tt, r) = (ok tt, r)
  after_bootstrap a reason canonical (err e, r) =
      if is_fatal e
      then (err (last_stale_as_error a.now r), r)
      else if beyond_bounds a.now r canonical
      then (let (expected, found) = gap_positions reason in
          (err (ReplicaError.gap expected found), enter_stale (Cause.unhealed_gap expected) r))
      else (ok tt, r)

  unfoldable pub resync : Answers P B D → GapReason → ℕ → Replica X B → Outcome
  unfolding bootstrap_state after_bootstrap
  resync a reason canonical r =
      after_bootstrap a reason canonical
        (bootstrap_state a (record r { state = ReplicaState.resyncing r.seq reason }))

  -- The end of `poll` after `apply_tail`.
  unfoldable pub confirm_applied : ℕ → Outcome → Outcome
  unfolding mark_confirmed
  confirm_applied now (ok tt, r) = (ok tt, mark_confirmed now r)
  confirm_applied now (err e, r) = (err e, r)

  -- Steps (5) and (6) of `poll`.
  unfoldable pub catch_up : Answers P B D → ℕ → List Event → Replica X B → Outcome
  unfolding detect_gap apply_tail resync confirm_applied
  catch_up a canonical tail r = elim (if r.detect_gaps then detect_gap tail r.seq else none) [
    | some reason ↦ resync a reason canonical r
    | none ↦ confirm_applied a.now (apply_tail tail r)
  ]

  unfoldable pub poll : Answers P B D → Replica X B → Outcome
  unfolding on_unreachable enter_stale mark_confirmed catch_up
  poll a r = elim a.canonical_committed_seq [
    | err _ ↦ on_unreachable a.now r
    | ok canonical ↦
        if ltb canonical r.seq
        then (
          err (ReplicaError.split_brain canonical r.last_epoch r.last_epoch),
          enter_stale (Cause.source_rewind canonical r.seq) r,
        )
        else if eqb canonical r.seq
        then (ok tt, mark_confirmed a.now r)
        else (elim (a.events_since r.seq) [
          | err _ ↦ on_unreachable a.now r
          | ok tail ↦ catch_up a canonical tail r
        ])
  ]
