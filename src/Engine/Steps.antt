-- ===== src/Engine/Steps.antt =====
-- server/src/engine.rs: what follows the answer of a handler.
use arrow_kanban.Prelude.{
  ℕ, ◌+◌, ◌<◌, String, ◌≡◌, refl, ap, sym, subst, true, false, Option, some, inl, inr, ◌⊎◌, arith,
  Result, ok, err, Option-cases, Bool-cases, Result-cases,
}
use arrow_kanban.Health.{HealthGate, admit_mutation, is_degraded, record_persist_success, recover}
use arrow_kanban.Storage.{commit, seq_bound}
use arrow_kanban.Storage.Commit.{IsSound, commit-IsSound}
use arrow_kanban.Engine.{
  Code, store_degraded, writer_fenced, replied, World, KanbanEngine, Handlers, conclude,
}

-- The codes of a command that was not run.
abbrev pub IsRefusal : Code → Type 0
IsRefusal c = (c ≡ store_degraded) ⊎ (c ≡ writer_fenced)

pub admit_mutation-interval :
    (now : ℕ) (probe : Option String) (g : HealthGate)
    → (admit_mutation now probe g).1.probe_interval_ms ≡ g.probe_interval_ms
unfolding admit_mutation recover
admit_mutation-interval now probe g = ground arith

module _ {S E Command Reply : Type 0} (h : Handlers S E Command Reply) (w : World S E)
    (cmd : Command) where
  conclude-backend :
      (r : Result String Reply) (k : KanbanEngine S E)
      → ((conclude h w cmd r k).1.backend ≡ k.backend)
        ⊎ ((ev : E) × ((conclude h w cmd r k).1.backend
              ≡ (commit k.backend w.faults k.state k.lease.held ev).1))
  unfolding conclude
  conclude-backend (err bytes) k = inl refl
  conclude-backend (ok reply) k = elim (Bool-cases (h.is_mutation cmd)) [
    | inr other ↦ inl (ground arith)
    | inl mut ↦ elim (Option-cases (h.event_of cmd reply)) [
      | inl silent ↦ inl (ground arith)
      | inr (ev, made) ↦ elim (Result-cases (commit k.backend w.faults k.state k.lease.held ev).0) [
        | inl (n, done) ↦ inr (ev, ground arith)
        | inr (x, lost) ↦ inr (ev, ground arith)
      ]
    ]
  ]

  pub conclude-IsSound :
      (r : Result String Reply) (k : KanbanEngine S E)
      → IsSound k.backend
      → w.faults.truncates ≡ true
      → k.backend.committed_seq + 1 < seq_bound
      → IsSound (conclude h w cmd r k).1.backend
  conclude-IsSound r k sound t room = elim (conclude-backend r k) [
    | inl same ↦ subst (λ b. IsSound b) (sym same) sound
    | inr (ev, committed) ↦
        subst (λ b. IsSound b) (sym committed)
          (commit-IsSound k.backend w.faults k.state k.lease.held ev sound t room)
  ]

  -- The mutations that a handler answered and the log took.
  pub conclude_replied :
      (r : Result String Reply) (k : KanbanEngine S E) (reply : Reply)
      → h.is_mutation cmd ≡ true
      → (conclude h w cmd r k).0 ≡ replied reply
      → (ev : E) × (n : ℕ) × (r ≡ ok reply)
        × (h.event_of cmd reply ≡ some ev)
        × ((commit k.backend w.faults k.state k.lease.held ev).0 ≡ ok n)
        × ((conclude h w cmd r k).1.backend ≡ (commit k.backend w.faults k.state k.lease.held ev).1)
        × ((conclude h w cmd r k).1.state ≡ k.state)
        × (is_degraded (conclude h w cmd r k).1.health ≡ false)
  unfolding conclude record_persist_success recover is_degraded
  conclude_replied (err bytes) k reply mut e = absurd (ground arith)
  conclude_replied (ok found) k reply mut e = elim (Option-cases (h.event_of cmd found)) [
    | inl silent ↦ absurd (ground arith)
    | inr (ev, made) ↦ elim (Result-cases (commit k.backend w.faults k.state k.lease.held ev).0) [
      | inr (x, lost) ↦ absurd (ground arith)
      | inl (n, done) ↦
          let same : found ≡ reply = ground arith in
          (
            ev,
            n,
            ap ok same,
            subst (λ q. h.event_of cmd q ≡ some ev) same made,
            done,
            ground arith,
            ground arith,
            ground arith,
          )
    ]
  ]
