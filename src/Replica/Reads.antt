-- ===== src/Replica/Reads.antt =====
-- server/src/replica.rs: what a reader is given after a poll that could not catch up.
use arrow_kanban.Prelude.{
  ℕ, ◌-◌, ◌<◌, ◌≤◌, ◌≡◌, refl, ap, ◌∙◌, String, false, Option, none, List, [], ◌∷◌, arith, ◌⊎◌, inl,
  inr, ok, err, Result-cases, is_ok,
}
use arrow_kanban.Crud.{Env}
use arrow_kanban.Replica.{
  Cause, ReplicaState, ReplicaError, EngineExtension, Answers, Replica, enter_stale,
  within_staleness_bound, read, on_unreachable, detect_gap, epoch_regression,
}
use arrow_kanban.Replica.Poll.{
  Event, Outcome, apply_event, apply_events, publish_applied, apply_tail, confirm_applied, catch_up,
  poll,
}

module _ {X P B D : Type 0} (methods : EngineExtension X P B D) (lookup : String → Option String)
    (envs : ℕ → ℕ → Env) where
  -- The two probes of a poll: the source's position, and the tail if the replica is behind it.
  abbrev pub Unreachable : Answers P B D → Replica X B → Type 0
  Unreachable a r =
      (is_ok a.canonical_committed_seq ≡ false)
      ⊎ ((c : ℕ) × (a.canonical_committed_seq ≡ ok c)
          × (r.seq < c)
          × (is_ok (a.events_since r.seq) ≡ false))

  poll-Unreachable :
      (a : Answers P B D) (r : Replica X B)
      → Unreachable a r
      → poll methods lookup envs a r ≡ on_unreachable a.now r
  unfolding poll
  poll-Unreachable a r (inl down) = ground arith
  poll-Unreachable a r (inr (c, reached, behind, down)) = ground arith

  -- A poll that cannot reach the source, by either of its two probes, longer than the staleness bound
  -- after the last confirmation, succeeds and closes the replica: every later read is refused,
  -- with the time of that last confirmation.
  pub read-poll_partitioned :
      (a : Answers P B D) (r : Replica X B) (t : ℕ)
      → Unreachable a r
      → r.bound.max_staleness < a.now - r.last_confirmed_at
      → let (done, r') = poll methods lookup envs a r in
        (done ≡ ok tt)
        × (read t r' ≡ err (ReplicaError.stale Cause.unreachable_too_long r.last_confirmed_at t))
  unfolding on_unreachable within_staleness_bound enter_stale read
  read-poll_partitioned a r t h late = rw (poll-Unreachable a r h) (ground arith)

  -- A poll that cannot reach the source within the staleness bound changes nothing.
  pub poll-Unreachable_within :
      (a : Answers P B D) (r : Replica X B)
      → Unreachable a r
      → a.now - r.last_confirmed_at ≤ r.bound.max_staleness
      → poll methods lookup envs a r ≡ (ok tt, r)
  unfolding on_unreachable within_staleness_bound
  poll-Unreachable_within a r h soon = rw (poll-Unreachable a r h) (ground arith)

  apply_event-serves :
      (c : Event methods lookup envs) (r : Replica X B)
      → let r' = (apply_event methods lookup envs c r).1 in
        (r'.snapshot ≡ r.snapshot) × (r'.state ≡ r.state)
  unfolding apply_event
  apply_event-serves c r = ground arith

  apply_events-serves :
      (cs : List (Event methods lookup envs)) (r : Replica X B)
      → let r' = (apply_events methods lookup envs cs r).1 in
        (r'.snapshot ≡ r.snapshot) × (r'.state ≡ r.state)
  unfolding apply_events
  apply_events-serves [] r = (refl, refl)
  apply_events-serves (c ∷ cs) r = elim (Result-cases (apply_event methods lookup envs c r).0) [
    | inl (_, done) ↦ ground (
      arith,
      apply_event-serves c r,
      apply_events-serves cs
          (record (apply_event methods lookup envs c r).1 { seq = c.seq; last_epoch = c.epoch }),
    )
    | inr (e, failed) ↦ ground (arith, apply_event-serves c r)
  ]

  publish_applied-failed :
      (o : Outcome methods lookup envs) {e : ReplicaError}
      → o.0 ≡ err e
      → publish_applied methods lookup envs o ≡ o
  unfolding publish_applied
  publish_applied-failed (ok tt, r) h = cc
  publish_applied-failed (err x, r) h = refl

  confirm_applied-failed :
      (now : ℕ) (o : Outcome methods lookup envs) {e : ReplicaError}
      → o.0 ≡ err e
      → confirm_applied methods lookup envs now o ≡ o
  unfolding confirm_applied
  confirm_applied-failed now (ok tt, r) h = cc
  confirm_applied-failed now (err x, r) h = refl

  -- A poll that fetches a clean tail comes down to the replay of it.
  pub poll-clean :
      (a : Answers P B D) (r : Replica X B) (c : ℕ) {tail : List (Event methods lookup envs)}
      → a.canonical_committed_seq ≡ ok c
      → r.seq < c
      → a.events_since r.seq ≡ ok tail
      → detect_gap tail r.seq ≡ none
      → epoch_regression r.last_epoch tail ≡ none
      → poll methods lookup envs a r
        ≡ confirm_applied methods lookup envs a.now
            (publish_applied methods lookup envs (apply_events methods lookup envs tail r))
  unfolding poll catch_up apply_tail
  poll-clean a r c reached behind fetched clean rises = ground arith

  -- A poll of a live replica whose clean tail fails to replay returns the error and leaves the
  -- replica live: it goes on serving the snapshot from before, at any time, without the staleness
  -- bound.
  pub read-replay_failed :
      (a : Answers P B D) (r : Replica X B) (c t : ℕ) {tail : List (Event methods lookup envs)}
      {e : ReplicaError}
      → r.state ≡ ReplicaState.live
      → a.canonical_committed_seq ≡ ok c
      → r.seq < c
      → a.events_since r.seq ≡ ok tail
      → detect_gap tail r.seq ≡ none
      → epoch_regression r.last_epoch tail ≡ none
      → (apply_events methods lookup envs tail r).0 ≡ err e
      → let (done, r') = poll methods lookup envs a r in
        (done ≡ err e) × (read t r' ≡ ok r.snapshot)
  unfolding read
  read-replay_failed a r c t {tail} live reached behind fetched clean rises failed =
      let run = apply_events methods lookup envs tail r in
      let same : poll methods lookup envs a r ≡ run =
        poll-clean a r c reached behind fetched clean rises
        ∙ ap (confirm_applied methods lookup envs a.now) (publish_applied-failed run failed)
        ∙ confirm_applied-failed a.now run failed in
      rw same (failed, ground (arith, apply_events-serves tail r))
