-- ===== src/Replica/Mirror.antt =====
-- server/src/replica.rs: the events of one canonical history bring a state of it to a later one.
pub mod Polls
use arrow_kanban.Prelude.{
  ℕ, suc, ◌+◌, ◌-◌, ◌%◌, ◌<◌, ◌≡◌, refl, sym, ap, ◌∙◌, String, Bool, true, false, Option, none,
  some, List, [], ◌∷◌, arith, Result, ok, err, Result-cases, Option-cases, Bool-cases, inl, inr,
  All, ltb, eqb,
}
use arrow_kanban.Crud.{Env}
use arrow_kanban.Storage.{CommittedEvent, seq_bound}
use arrow_kanban.Events.{MutationEvent}
use arrow_kanban.Events.Effects.{Stores, ReplayError, replay_into}
use arrow_kanban.Replica.{
  schema_version, GapReason, ReplicaError, AggregateSnapshot, EngineExtension, Answers, Replica,
  mark_confirmed, enter_stale, on_unreachable, detect_gap, epoch_regression,
}
use arrow_kanban.Replica.Gaps.{Follows, detect_gap-none}
use arrow_kanban.Replica.Poll.{
  extension_part, Event, Outcome, publish, seed_extension, take_up, confirm_seeded, bootstrap_state,
  apply_event, apply_events, publish_applied, apply_tail, after_bootstrap, resync, catch_up, poll,
}

-- What holds of an answer that is not an error.
abbrev pub OnOk : {E A : Type 0} → (A → Type 0) → Result E A → Type 0
OnOk P (ok a) = P a
OnOk P (err e) = Unit

module _ {X P B D : Type 0} (methods : EngineExtension X P B D) (lookup : String → Option String)
    (envs : ℕ → ℕ → Env) (state_at : ℕ → Stores) where
  -- An event of the history: its replay takes the stores before its position to those at it.
  abbrev pub IsCanonical : CommittedEvent (MutationEvent P) → Type 0
  IsCanonical c =
      (0 < c.seq)
      × (c.seq < seq_bound)
      × (replay_into lookup (envs c.seq) c.event (state_at (c.seq - 1)) ≡ (ok tt, state_at c.seq))

  -- A snapshot of the history.
  abbrev pub IsImage : AggregateSnapshot B → Type 0
  IsImage snap = (snap.seq < seq_bound) × (snap.stores ≡ state_at snap.seq)

  -- The stores, and those that readers are given, are states of the history at their positions.
  pub record Mirrors (r : Replica X B) : Type 0 where
    pub ranged : r.seq < seq_bound
    pub holds : r.stores ≡ state_at r.seq
    pub shows : r.snapshot.stores ≡ state_at r.snapshot.seq

  extension_part-skips :
      (e : MutationEvent P) (t : String × String × P) (n : ℕ) (d : Stores)
      → extension_part e ≡ some t
      → replay_into lookup (envs n) e d ≡ (ok tt, d)
  unfolding extension_part replay_into
  extension_part-skips (MutationEvent.extension namespace kind payload) t n d h = refl
  extension_part-skips _ t n d h = cc

  -- One event writes the stores as its replay on them, and leaves the rest of the core alone.
  pub apply_event-keeps :
      (c : CommittedEvent (MutationEvent P)) (r : Replica X B)
      → let (done, r') = apply_event methods lookup envs c r in
        (r'.snapshot ≡ r.snapshot)
        × (r'.seq ≡ r.seq)
        × (r'.stores ≡ (replay_into lookup (envs c.seq) c.event r.stores).1)
  unfolding apply_event
  apply_event-keeps c r = elim (Option-cases (extension_part c.event)) [
    | inl core ↦ ground arith
    | inr (t, e) ↦ ground (arith, extension_part-skips c.event t c.seq r.stores e)
  ]

  previous : (n s : ℕ) → s < seq_bound → 0 < n → n ≡ (s + 1) % seq_bound → n - 1 ≡ s
  previous n s h k e = omega arith

  pub at_previous :
      (c : CommittedEvent (MutationEvent P)) (r : Replica X B)
      → c.seq ≡ (r.seq + 1) % seq_bound
      → IsCanonical c
      → Mirrors r
      → r.stores ≡ state_at (c.seq - 1)
  at_previous c r e h m = m.holds ∙ ap state_at (sym (previous c.seq r.seq m.ranged h.0 e))

  pub apply_event-stores :
      (c : CommittedEvent (MutationEvent P)) (r : Replica X B)
      → c.seq ≡ (r.seq + 1) % seq_bound
      → IsCanonical c
      → Mirrors r
      → (apply_event methods lookup envs c r).1.stores ≡ state_at c.seq
  apply_event-stores c r e h m =
      (apply_event-keeps c r).2
      ∙ ap (λ d. (replay_into lookup (envs c.seq) c.event d).1) (at_previous c r e h m)
      ∙ ap (λ (o : Result ReplayError Unit × Stores). o.1) h.2

  -- Only the extension can fail on an event of the history, which leaves the stores as they are.
  apply_event-failed :
      (c : CommittedEvent (MutationEvent P)) (r : Replica X B) {e : ReplicaError}
      → c.seq ≡ (r.seq + 1) % seq_bound
      → IsCanonical c
      → Mirrors r
      → (apply_event methods lookup envs c r).0 ≡ err e
      → (apply_event methods lookup envs c r).1.stores ≡ r.stores
  unfolding apply_event
  apply_event-failed c r k h m failed = elim (Option-cases (extension_part c.event)) [
    | inl core ↦ ground (
      arith,
      ap (λ d. (replay_into lookup (envs c.seq) c.event d).0) (at_previous c r k h m),
      h.2,
    )
    | inr (t, e) ↦ ground arith
  ]

  pub apply_events-Mirrors :
      (cs : List (CommittedEvent (MutationEvent P))) (r : Replica X B)
      → Follows r.seq cs
      → All IsCanonical cs
      → Mirrors r
      → Mirrors (apply_events methods lookup envs cs r).1
  unfolding apply_events
  apply_events-Mirrors [] r f h m = m
  apply_events-Mirrors (c ∷ cs) r f h m =
      let kept = apply_event-keeps c r in
      let r' = (apply_event methods lookup envs c r).1 in
      let shows : r'.snapshot.stores ≡ state_at r'.snapshot.seq = rw (kept.0) m.shows in
      elim (Result-cases (apply_event methods lookup envs c r).0) [
        | inl (_, done) ↦
            rw (done, apply_events)
              (apply_events-Mirrors cs (record r' { seq = c.seq; last_epoch = c.epoch }) f.1 h.1
                (record {
                  ranged = h.0.1;
                  holds = apply_event-stores c r f.0 h.0 m;
                  shows = shows;
                }))
        | inr (e, failed) ↦
            rw (failed, apply_events)
              (record {
                ranged = rw (kept.1) m.ranged;
                holds =
                    apply_event-failed c r f.0 h.0 m failed ∙ m.holds ∙ ap state_at (sym kept.1);
                shows = shows;
              })
      ]

  -- Mirroring reads the stores, the position and the snapshot alone.
  pub Mirrors-of :
      (r s : Replica X B)
      → (s.seq ≡ r.seq) × (s.stores ≡ r.stores) × (s.snapshot ≡ r.snapshot)
      → Mirrors r
      → Mirrors s
  Mirrors-of r s (e, d, p) m = record {
    ranged = rw e m.ranged;
    holds = d ∙ m.holds ∙ ap state_at (sym e);
    shows = rw p m.shows;
  }
