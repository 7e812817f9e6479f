-- ===== src/Replica/Unseeded.antt =====
-- server/src/replica.rs: a re-bootstrap whose extension cannot be seeded.
use arrow_kanban.Prelude.{
  ℕ, ◌<◌, ◌≡◌, refl, ap, ◌∙◌, String, Option, true, false, some, List, arith, ok, err,
}
use arrow_kanban.Crud.{Env}
use arrow_kanban.Replica.{
  schema_version, GapReason, ReplicaState, ReplicaError, AggregateSnapshot, EngineExtension,
  Answers, Replica, mark_confirmed, read, detect_gap, beyond_bounds,
}
use arrow_kanban.Replica.Poll.{
  Event, Outcome, is_fatal, seed_extension, take_up, confirm_seeded, bootstrap_state,
  after_bootstrap, resync, catch_up, poll,
}

module _ {X P B D : Type 0} (methods : EngineExtension X P B D) (lookup : String → Option String)
    (envs : ℕ → ℕ → Env) where
  seed_extension-serves :
      (a : Answers P B D) (r : Replica X B)
      → let r' = (seed_extension methods lookup envs a r).1 in
        (r'.snapshot ≡ r.snapshot)
        × (r'.seq ≡ r.seq)
        × (r'.bound ≡ r.bound)
        × (r'.last_confirmed_at ≡ r.last_confirmed_at)
  unfolding seed_extension
  seed_extension-serves a r = ground arith

  confirm_seeded-failed :
      (now : ℕ) (o : Outcome methods lookup envs) {e : ReplicaError}
      → o.0 ≡ err e
      → confirm_seeded methods lookup envs now o ≡ o
  unfolding confirm_seeded
  confirm_seeded-failed now (ok tt, r) h = cc
  confirm_seeded-failed now (err x, r) h = refl

  after_bootstrap-within :
      (a : Answers P B D) (reason : GapReason) (canonical : ℕ) (o : Outcome methods lookup envs)
      {why : String}
      → o.0 ≡ err (ReplicaError.source_unreachable why)
      → beyond_bounds a.now o.1 canonical ≡ false
      → after_bootstrap methods lookup envs a reason canonical o ≡ (ok tt, o.1)
  unfolding after_bootstrap is_fatal
  after_bootstrap-within a reason canonical (ok tt, r) h w = cc
  after_bootstrap-within a reason canonical (err x, r) h w = ground arith

  -- How seeding the extension ends, as a resync takes up a snapshot.
  abbrev pub seeded :
      Answers P B D → GapReason → AggregateSnapshot B → Replica X B → Outcome methods lookup envs
  seeded a reason snap r =
      seed_extension methods lookup envs a (
        take_up methods lookup envs snap (record r { state = ReplicaState.resyncing r.seq reason }))

  bootstrap_state-matching :
      (a : Answers P B D) (r : Replica X B) (snap : AggregateSnapshot B)
      → a.bootstrap ≡ ok snap
      → snap.schema ≡ schema_version
      → bootstrap_state methods lookup envs a r
        ≡ confirm_seeded methods lookup envs a.now
            (seed_extension methods lookup envs a (take_up methods lookup envs snap r))
  unfolding bootstrap_state
  bootstrap_state-matching a r snap answered same = ground arith

  resync-unseeded :
      (a : Answers P B D) (reason : GapReason) (c : ℕ) (r : Replica X B)
      (snap : AggregateSnapshot B) {why : String}
      → a.bootstrap ≡ ok snap
      → snap.schema ≡ schema_version
      → (seeded a reason snap r).0 ≡ err (ReplicaError.source_unreachable why)
      → beyond_bounds a.now (seeded a reason snap r).1 c ≡ false
      → resync methods lookup envs a reason c r ≡ (ok tt, (seeded a reason snap r).1)
  unfolding resync
  resync-unseeded a reason c r snap answered same failed within =
      let o = seeded a reason snap r in
      ap (after_bootstrap methods lookup envs a reason c) (
        bootstrap_state-matching a (record r { state = ReplicaState.resyncing r.seq reason }) snap
          answered same
        ∙ confirm_seeded-failed a.now o failed)
      ∙ after_bootstrap-within a reason c o failed within

  -- Where a re-bootstrap takes up a snapshot of the source but cannot read the log to seed the
  -- extension, within the staleness and lag bounds, the poll succeeds with the snapshot for readers
  -- not replaced. The next poll that finds the source at that position confirms the replica as
  -- live, and a reader is given the snapshot from before the gap.
  pub read-poll_unseeded :
      (a b : Answers P B D) (r : Replica X B) (c t : ℕ) {snap : AggregateSnapshot B}
      {reason : GapReason} {tail : List (Event methods lookup envs)} {why : String}
      → r.detect_gaps ≡ true
      → a.canonical_committed_seq ≡ ok c
      → r.seq < c
      → a.events_since r.seq ≡ ok tail
      → detect_gap tail r.seq ≡ some reason
      → a.bootstrap ≡ ok snap
      → snap.schema ≡ schema_version
      → (seeded a reason snap r).0 ≡ err (ReplicaError.source_unreachable why)
      → beyond_bounds a.now (seeded a reason snap r).1 c ≡ false
      → b.canonical_committed_seq ≡ ok snap.seq
      → let (first, r') = poll methods lookup envs a r in
        let (done, r'') = poll methods lookup envs b r' in
        (first ≡ ok tt)
        × (done ≡ ok tt)
        × (r''.seq ≡ snap.seq)
        × (r''.last_confirmed_at ≡ b.now)
        × (read t r'' ≡ ok r.snapshot)
  unfolding poll catch_up take_up mark_confirmed read
  read-poll_unseeded a b r c t {snap} {reason} armed at_c behind fetched hole answered same failed
        within level =
      ground (
        arith,
        resync-unseeded a reason c r snap answered same failed within,
        seed_extension-serves a (
            take_up methods lookup envs snap
              (record r { state = ReplicaState.resyncing r.seq reason })),
      )
