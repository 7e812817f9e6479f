-- ===== src/Replica/Mirror/Polls.antt =====
-- server/src/replica.rs: a replica of one canonical history holds a state of that history, whatever
-- a poll does.
use arrow_kanban.Prelude.{
  ℕ, ◌≡◌, refl, String, true, Option, List, arith, ok, err, Result-cases, Option-cases, Bool-cases,
  inl, inr, All, ltb, eqb,
}
use arrow_kanban.Crud.{Env}
use arrow_kanban.Storage.{CommittedEvent}
use arrow_kanban.Events.{MutationEvent}
use arrow_kanban.Events.Effects.{Stores}
use arrow_kanban.Replica.{
  schema_version, GapReason, EngineExtension, Answers, Replica, mark_confirmed, enter_stale,
  on_unreachable, detect_gap, epoch_regression,
}
use arrow_kanban.Replica.Gaps.{Follows, detect_gap-none}
use arrow_kanban.Replica.Poll.{
  Outcome, seed_extension, take_up, confirm_seeded, bootstrap_state, apply_events, publish_applied,
  apply_tail, after_bootstrap, resync, catch_up, poll, confirm_applied,
}
use arrow_kanban.Replica.Mirror.{
  OnOk, IsCanonical, IsImage, Mirrors, Mirrors-of, apply_events-Mirrors,
}

module _ {X P B D : Type 0} (methods : EngineExtension X P B D) (lookup : String → Option String)
    (envs : ℕ → ℕ → Env) (state_at : ℕ → Stores) where
  publish_applied-Mirrors :
      (o : Outcome methods lookup envs)
      → (Mirrors methods lookup envs state_at) o.1
      → (Mirrors methods lookup envs state_at) (publish_applied methods lookup envs o).1
  unfolding publish_applied
  publish_applied-Mirrors (ok tt, r) m = record {
    ranged = m.ranged;
    holds = m.holds;
    shows = m.holds;
  }
  publish_applied-Mirrors (err e, r) m = m

  apply_tail-Mirrors :
      (tail : List (CommittedEvent (MutationEvent P))) (r : Replica X B)
      → Follows r.seq tail
      → All (IsCanonical methods lookup envs state_at) tail
      → (Mirrors methods lookup envs state_at) r
      → (Mirrors methods lookup envs state_at) (apply_tail methods lookup envs tail r).1
  unfolding apply_tail
  apply_tail-Mirrors tail r f h m = elim (Option-cases (epoch_regression r.last_epoch tail)) [
    | inl rises ↦
        rw (rises, apply_tail)
          (publish_applied-Mirrors (apply_events methods lookup envs tail r)
            (apply_events-Mirrors methods lookup envs state_at tail r f h m))
    | inr (p, e) ↦
        rw (e, apply_tail) (Mirrors-of methods lookup envs state_at r _ (refl, refl, refl) m)
  ]

  seed_extension-keeps :
      (a : Answers P B D) (r : Replica X B)
      → let r' = (seed_extension methods lookup envs a r).1 in
        (r'.seq ≡ r.seq) × (r'.stores ≡ r.stores) × (r'.snapshot ≡ r.snapshot)
  unfolding seed_extension
  seed_extension-keeps a r = ground arith

  confirm_seeded-Mirrors :
      (now : ℕ) (o : Outcome methods lookup envs)
      → (Mirrors methods lookup envs state_at) o.1
      → (Mirrors methods lookup envs state_at) (confirm_seeded methods lookup envs now o).1
  unfolding confirm_seeded mark_confirmed
  confirm_seeded-Mirrors now (ok tt, r) m = record {
    ranged = m.ranged;
    holds = m.holds;
    shows = m.holds;
  }
  confirm_seeded-Mirrors now (err e, r) m = m

  bootstrap_state-Mirrors :
      (a : Answers P B D) (r : Replica X B)
      → OnOk (IsImage methods lookup envs state_at) a.bootstrap
      → (Mirrors methods lookup envs state_at) r
      → (Mirrors methods lookup envs state_at) (bootstrap_state methods lookup envs a r).1
  unfolding bootstrap_state
  bootstrap_state-Mirrors a r h m = elim (Result-cases a.bootstrap) [
    | inl (snap, e) ↦ elim (Bool-cases (eqb snap.schema schema_version)) [
      | inl t ↦
          let image : (IsImage methods lookup envs state_at) snap = rw e at h in
          let taken : (Mirrors methods lookup envs state_at) (take_up methods lookup envs snap r) =
            record { ranged = image.0; holds = image.1; shows = m.shows } in
          rw (e, bootstrap_state, t)
            (confirm_seeded-Mirrors a.now _ (
              Mirrors-of methods lookup envs state_at (take_up methods lookup envs snap r) _
                (seed_extension-keeps a (take_up methods lookup envs snap r)) taken))
      | inr f ↦
          rw (e, bootstrap_state, f)
            (Mirrors-of methods lookup envs state_at r _ (refl, refl, refl) m)
    ]
    | inr (x, e) ↦ rw (e, bootstrap_state) m
  ]

  after_bootstrap-Mirrors :
      (a : Answers P B D) (reason : GapReason) (canonical : ℕ) (o : Outcome methods lookup envs)
      → (Mirrors methods lookup envs state_at) o.1
      → (Mirrors methods lookup envs state_at)
          (after_bootstrap methods lookup envs a reason canonical o).1
  unfolding after_bootstrap
  after_bootstrap-Mirrors a reason canonical (ok tt, r) m = m
  after_bootstrap-Mirrors a reason canonical (err e, r) m =
      Mirrors-of methods lookup envs state_at r _ (ground arith) m

  resync-Mirrors :
      (a : Answers P B D) (reason : GapReason) (canonical : ℕ) (r : Replica X B)
      → OnOk (IsImage methods lookup envs state_at) a.bootstrap
      → (Mirrors methods lookup envs state_at) r
      → (Mirrors methods lookup envs state_at) (resync methods lookup envs a reason canonical r).1
  unfolding resync
  resync-Mirrors a reason canonical r h m = after_bootstrap-Mirrors a reason canonical _ (
      bootstrap_state-Mirrors a _ h
        (Mirrors-of methods lookup envs state_at r _ (refl, refl, refl) m))

  confirm_applied-Mirrors :
      (now : ℕ) (o : Outcome methods lookup envs)
      → (Mirrors methods lookup envs state_at) o.1
      → (Mirrors methods lookup envs state_at) (confirm_applied methods lookup envs now o).1
  unfolding confirm_applied mark_confirmed
  confirm_applied-Mirrors now (ok tt, r) m =
      Mirrors-of methods lookup envs state_at r _ (refl, refl, refl) m
  confirm_applied-Mirrors now (err e, r) m = m

  on_unreachable-keeps :
      (now : ℕ) (r : Replica X B)
      → let r' = (on_unreachable now r).1 in
        (r'.seq ≡ r.seq) × (r'.stores ≡ r.stores) × (r'.snapshot ≡ r.snapshot)
  unfolding on_unreachable enter_stale
  on_unreachable-keeps now r = ground arith

  catch_up-Mirrors :
      (a : Answers P B D) (canonical : ℕ) (tail : List (CommittedEvent (MutationEvent P)))
      (r : Replica X B)
      → r.detect_gaps ≡ true
      → OnOk (IsImage methods lookup envs state_at) a.bootstrap
      → All (IsCanonical methods lookup envs state_at) tail
      → (Mirrors methods lookup envs state_at) r
      → (Mirrors methods lookup envs state_at) (catch_up methods lookup envs a canonical tail r).1
  unfolding catch_up
  catch_up-Mirrors a canonical tail r armed h k m = elim (Option-cases (detect_gap tail r.seq)) [
    | inl clean ↦
        rw (armed, catch_up, clean)
          (confirm_applied-Mirrors a.now _
            (apply_tail-Mirrors tail r ((detect_gap-none tail r.seq).0 clean).1 k m))
    | inr (reason, e) ↦ rw (armed, catch_up, e) (resync-Mirrors a reason canonical r h m)
  ]

  -- One poll of an armed replica whose source answers from one history, the snapshots included,
  -- leaves it with stores, and with a published snapshot, that are states of that history at the
  -- positions they carry: after every branch of the poll, one that fails half-way included.
  pub poll-Mirrors :
      (a : Answers P B D) (r : Replica X B)
      → r.detect_gaps ≡ true
      → OnOk (All (IsCanonical methods lookup envs state_at)) (a.events_since r.seq)
      → OnOk (IsImage methods lookup envs state_at) a.bootstrap
      → (Mirrors methods lookup envs state_at) r
      → (Mirrors methods lookup envs state_at) (poll methods lookup envs a r).1
  unfolding poll on_unreachable enter_stale mark_confirmed
  poll-Mirrors a r armed honest image m = elim (Result-cases a.canonical_committed_seq) [
    | inr (x, e) ↦
        rw (e, poll) (Mirrors-of methods lookup envs state_at r _ (on_unreachable-keeps a.now r) m)
    | inl (canonical, e) ↦ elim (Bool-cases (ltb canonical r.seq)) [
      | inl t ↦ rw (e, poll, t) (Mirrors-of methods lookup envs state_at r _ (refl, refl, refl) m)
      | inr f ↦ elim (Bool-cases (eqb canonical r.seq)) [
        | inl level ↦
            rw (e, poll, f, level)
              (Mirrors-of methods lookup envs state_at r _ (refl, refl, refl) m)
        | inr behind ↦ elim (Result-cases (a.events_since r.seq)) [
          | inr (x, k) ↦
              rw (e, poll, f, behind, k)
                (Mirrors-of methods lookup envs state_at r _ (on_unreachable-keeps a.now r) m)
          | inl (tail, k) ↦
              rw (e, poll, f, behind, k)
                (catch_up-Mirrors a canonical tail r armed image (rw k at honest) m)
        ]
      ]
    ]
  ]
