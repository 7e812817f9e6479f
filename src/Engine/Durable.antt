-- ===== src/Engine/Durable.antt =====
-- server/src/engine.rs: the ways that a command ends, and what an acknowledged mutation has left in
-- the log.
use arrow_kanban.Prelude.{
  ℕ, ◌+◌, ◌≤◌, ◌<◌, String, ◌≡◌, refl, ◌≢◌, ap, sym, ◌∙◌, subst, true, false, some, inl, inr, ◌⊎◌,
  [], ◌∷◌, ◌++◌, arith, ok, Bool-cases, Result-cases,
}
use arrow_kanban.Lease.{OwnerFile, is_current, epoch_bound}
use arrow_kanban.Lease.Fencing.{Takes, is_current-Takes}
use arrow_kanban.Health.{HealthGate, admit_mutation, is_degraded}
use arrow_kanban.Storage.{read_events_since, seq_bound}
use arrow_kanban.Storage.Commit.{IsSound, since, commit-events_since}
use arrow_kanban.Engine.{
  Code, store_degraded, writer_fenced, Answer, refused, replied, World, KanbanEngine, Handlers,
  conclude, execute, fence, degraded_text, fenced_text, unverified_text, show_lease_error, apply,
}
use arrow_kanban.Engine.Steps.{
  IsRefusal, admit_mutation-interval, conclude-IsSound, conclude_replied,
}

module _ {S E Command Reply : Type 0} (h : Handlers S E Command Reply) (w : World S E)
    (cmd : Command) (k : KanbanEngine S E) where
  -- A mutation that the gate or the fence refuses changes neither the state nor the log.
  pub apply-refused :
      (m : String) (c : Code)
      → (apply h w cmd k).0 ≡ refused m c
      → IsRefusal c
      → ((apply h w cmd k).1.state ≡ k.state) × ((apply h w cmd k).1.backend ≡ k.backend)
  unfolding apply fence execute conclude
  apply-refused m c e d = ground arith

  -- A command that is no mutation leaves the log and the gate, whatever they are.
  pub apply-read :
      h.is_mutation cmd ≡ false
      → ((apply h w cmd k).1.backend ≡ k.backend) × ((apply h w cmd k).1.health ≡ k.health)
  unfolding apply execute conclude
  apply-read r = ground arith

  -- An engine whose lease is not current refuses every mutation, and changes neither the state nor
  -- the log.
  pub apply-fenced :
      h.is_mutation cmd ≡ true
      → is_current k.lease w.owner_file ≢ ok true
      → ((m : String) × (c : Code) × ((apply h w cmd k).0 ≡ refused m c) × IsRefusal c)
        × ((apply h w cmd k).1.state ≡ k.state)
        × ((apply h w cmd k).1.backend ≡ k.backend)
  unfolding apply fence
  apply-fenced mut f = elim (Result-cases (admit_mutation w.now w.probe k.health).0) [
    | inr (reason, shut) ↦ (
      (
        degraded_text reason (admit_mutation w.now w.probe k.health).1.session_start_ms,
        store_degraded,
        ground arith,
        inl refl,
      ),
      ground arith,
      ground arith,
    )
    | inl (_, open_gate) ↦ elim (Result-cases (is_current k.lease w.owner_file)) [
      | inr (x, unverified) ↦ (
        (unverified_text (h.verb cmd) (show_lease_error x), writer_fenced, ground arith, inr refl),
        ground arith,
        ground arith,
      )
      | inl (true, current) ↦ absurd (f current)
      | inl (false, stale) ↦ (
        (fenced_text (h.verb cmd), writer_fenced, ground arith, inr refl),
        ground arith,
        ground arith,
      )
    ]
  ]

  -- The engine as the handler leaves it, behind a gate.
  abbrev pub ran : HealthGate → KanbanEngine S E
  ran g = record k { state = (h.route cmd k.state).1; health = g }

  pub apply_way :
      ((g : HealthGate) × (apply h w cmd k ≡ conclude h w cmd (h.route cmd k.state).0 (ran g))
        × (g.probe_interval_ms ≡ k.health.probe_interval_ms)
        × ((h.is_mutation cmd ≡ false) ⊎ (is_current k.lease w.owner_file ≡ ok true)))
      ⊎ ((m : String) × (c : Code) × ((apply h w cmd k).0 ≡ refused m c)
          × IsRefusal c
          × ((apply h w cmd k).1.state ≡ k.state)
          × ((apply h w cmd k).1.backend ≡ k.backend))
  unfolding apply fence execute
  apply_way = elim (Bool-cases (h.is_mutation cmd)) [
    | inr other ↦ inl (k.health, ground arith, refl, inl other)
    | inl mut ↦ elim (Result-cases (is_current k.lease w.owner_file)) [
      | inl (true, current) ↦ elim (Result-cases (admit_mutation w.now w.probe k.health).0) [
        | inl (_, passed) ↦ inl (
          (admit_mutation w.now w.probe k.health).1,
          ground arith,
          admit_mutation-interval w.now w.probe k.health,
          inr current,
        )
        | inr (reason, shut) ↦ inr (
          degraded_text reason (admit_mutation w.now w.probe k.health).1.session_start_ms,
          store_degraded,
          ground arith,
          inl refl,
          ground arith,
          ground arith,
        )
      ]
      | inl (false, stale) ↦ refusal mut (λ t. ground arith)
      | inr (x, unverified) ↦ refusal mut (λ t. ground arith)
    ]
  ]
    where
      refusal :
          h.is_mutation cmd ≡ true
          → is_current k.lease w.owner_file ≢ ok true
          → ((g : HealthGate) × (apply h w cmd k ≡ conclude h w cmd (h.route cmd k.state).0 (ran g))
              × (g.probe_interval_ms ≡ k.health.probe_interval_ms)
              × ((h.is_mutation cmd ≡ false) ⊎ (is_current k.lease w.owner_file ≡ ok true)))
            ⊎ ((m : String) × (c : Code) × ((apply h w cmd k).0 ≡ refused m c)
                × IsRefusal c
                × ((apply h w cmd k).1.state ≡ k.state)
                × ((apply h w cmd k).1.backend ≡ k.backend))
      refusal mut f = let ((m, c, says, d), s, b) = apply-fenced mut f in inr (m, c, says, d, s, b)

  -- A log that is sound stays so under every command, whatever fails, if a rollback that a commit
  -- needs takes effect and the numbers have not run out.
  pub apply-IsSound :
      IsSound k.backend
      → w.faults.truncates ≡ true
      → k.backend.committed_seq + 1 < seq_bound
      → IsSound (apply h w cmd k).1.backend
  unfolding apply fence execute conclude
  apply-IsSound sound t room = elim apply_way [
    | inl (g, same, _, _) ↦
        subst (λ (p : Answer Reply × KanbanEngine S E). IsSound p.1.backend) (sym same)
          (conclude-IsSound h w cmd (h.route cmd k.state).0 (ran g) sound t room)
    | inr (_, _, _, _, _, same) ↦ subst (λ b. IsSound b) (sym same) sound
  ]

  -- Where the log is sound and its numbers have not run out, a mutation that is acknowledged was
  -- made by the holder of a current lease, and adds exactly its event to the log, under the next
  -- number and with that holder's epoch. The files hold the state that the handler made, and the
  -- gate is open.
  pub apply-acknowledged :
      (r : Reply) (from : ℕ)
      → IsSound k.backend
      → k.backend.committed_seq + 1 < seq_bound
      → from ≤ k.backend.committed_seq
      → h.is_mutation cmd ≡ true
      → (apply h w cmd k).0 ≡ replied r
      → let after = (apply h w cmd k).1 in
        let n = k.backend.committed_seq + 1 in
        (ev : E) × (is_current k.lease w.owner_file ≡ ok true)
        × (h.route cmd k.state ≡ (ok r, after.state))
        × (h.event_of cmd r ≡ some ev)
        × (after.backend.committed_seq ≡ n)
        × (after.backend.dir.files ≡ after.state)
        × (read_events_since after.backend.dir from
            ≡ ok (
                since from k.backend.dir.lines
                ++ record { seq = n; epoch = k.lease.held; event = ev } ∷ []))
        × (is_degraded after.health ≡ false)
  apply-acknowledged r from sound room le mut e = elim apply_way [
    | inr (m, c, says, _, _, _) ↦ absurd (ground arith)
    | inl (g, same, _, inl read) ↦ absurd (ground arith)
    | inl (g, same, _, inr current) ↦
        let found = ap (λ (p : Answer Reply × KanbanEngine S E). p.0) (sym same) ∙ e in
        let (ev, n, handled, made, done, b, st, gate) =
          conclude_replied h w cmd (h.route cmd k.state).0 (ran g) r mut found in
        let (numbered, seq, files, events) =
          commit-events_since k.backend w.faults (ran g).state k.lease.held ev n from sound room le
            done in
        rw same (
          rw (b, st)
            (
              ev,
              current,
              ground (arith, handled),
              made,
              seq ∙ numbered,
              files,
              events
                  ∙ ap
                      (λ m. ok (
                        since from k.backend.dir.lines
                        ++ record { seq = m; epoch = k.lease.held; event = ev } ∷ []))
                      numbered,
              gate,
            ))
  ]

module _ {S E Command Reply : Type 0} (h : Handlers S E Command Reply) (w : World S E)
    (cmd : Command) (k : KanbanEngine S E) where
  -- Once processes have taken the lease by durable writes, one or more times, an engine that held
  -- it refuses every mutation, and changes neither the state nor the log, while the epochs stay
  -- below their bound.
  pub apply-Takes :
      (f : OwnerFile) (n : ℕ)
      → Takes f w.owner_file n
      → 0 < n
      → is_current k.lease f ≡ ok true
      → k.lease.held + n < epoch_bound
      → h.is_mutation cmd ≡ true
      → ((m : String) × (c : Code) × ((apply h w cmd k).0 ≡ refused m c) × IsRefusal c)
        × ((apply h w cmd k).1.state ≡ k.state)
        × ((apply h w cmd k).1.backend ≡ k.backend)
  apply-Takes f n t some_taken held room mut =
      let now = is_current-Takes k.lease f w.owner_file n t held room in
      apply-fenced h w cmd k mut (λ current. ground (arith, now, current))
