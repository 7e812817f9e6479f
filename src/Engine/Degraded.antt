-- ===== src/Engine/Degraded.antt =====
-- server/src/engine.rs, server/src/health.rs: what follows a write that the log did not take.
use arrow_kanban.Prelude.{ℕ, ◌-◌, ◌<◌, String, ◌≡◌, refl, true, Option, arith, ok, err, ◌<>◌}
use arrow_kanban.Health.{
  HealthGate, Health, healthy, degraded, admit_mutation, is_degraded, probe_due, degrade,
  degrade_health, record_persist_failure,
}
use arrow_kanban.Engine.{
  store_degraded, store_not_durable, refused, World, KanbanEngine, Handlers, conclude, commit_event,
  apply, fence, execute, lost_text, degraded_text,
}
use arrow_kanban.Engine.Durable.{ran}
use arrow_kanban.Engine.Steps.{admit_mutation-interval}
use arrow_kanban.Lease.{is_current}

degrade_health-degraded :
    (now : ℕ) (reason : String) (x : Health)
    → (at : ℕ) × (degrade_health now reason x ≡ degraded reason at)
degrade_health-degraded now reason healthy = (now, refl)
degrade_health-degraded now reason (degraded r at) = (at, refl)

-- A gate that has just closed refuses without a probe while the interval lasts.
degrade-closed :
    (at now : ℕ) (reason : String) (probe : Option String) (g : HealthGate)
    → now - at < g.probe_interval_ms
    → admit_mutation now probe (degrade at reason g) ≡ (err reason, degrade at reason g)
unfolding admit_mutation is_degraded probe_due degrade
degrade-closed at now reason probe g soon =
    let (since, closed) = degrade_health-degraded at reason g.health in ground (arith, closed)

-- An engine whose gate has just closed refuses a mutation and stays as it is.
apply-closed :
    {S E Command Reply : Type 0} (h : Handlers S E Command Reply) (w : World S E) (cmd : Command)
    (k : KanbanEngine S E) (g : HealthGate) (at : ℕ) (reason : String)
    → k.health ≡ degrade at reason g
    → w.now - at < g.probe_interval_ms
    → h.is_mutation cmd ≡ true
    → apply h w cmd k ≡ (refused (degraded_text reason k.health.session_start_ms) store_degraded, k)
unfolding apply
apply-closed h w cmd k g at reason shut soon mut =
    let closed : admit_mutation w.now w.probe k.health ≡ (err reason, k.health) =
      rw shut (degrade-closed at w.now reason w.probe g soon) in
    ground (arith, closed)

module _ {S E Command Reply : Type 0} (h : Handlers S E Command Reply) (w : World S E)
    (cmd : Command) where
  apply_lost :
      (k : KanbanEngine S E) (g : HealthGate) (reply : Reply) (x : String)
      → h.is_mutation cmd ≡ true
      → admit_mutation w.now w.probe k.health ≡ (ok tt, g)
      → is_current k.lease w.owner_file ≡ ok true
      → (h.route cmd k.state).0 ≡ ok reply
      → (commit_event w (h.verb cmd) (h.event_of cmd reply) (ran h w cmd k g)).0 ≡ err x
      → ((apply h w cmd k).0
          ≡ refused
              (lost_text (h.verb cmd) x (apply h w cmd k).1.health.session_start_ms)
              store_not_durable)
        × ((apply h w cmd k).1.health
            ≡ degrade w.now_after ("persist failed after '" <> h.verb cmd <> "': " <> x) g)
  unfolding apply fence execute conclude record_persist_failure
  apply_lost k g reply x mut passed current answered lost = ground arith

  -- A mutation that the gate and the fence let pass and the handler answers, but that has no event or
  -- whose commit fails, is answered with an error that says so, and until the probe interval has
  -- passed the next mutation is refused and changes nothing.
  pub apply-not_durable :
      (k : KanbanEngine S E) (g : HealthGate) (reply : Reply) (x : String) (w' : World S E)
      (cmd' : Command)
      → h.is_mutation cmd ≡ true
      → admit_mutation w.now w.probe k.health ≡ (ok tt, g)
      → is_current k.lease w.owner_file ≡ ok true
      → (h.route cmd k.state).0 ≡ ok reply
      → (commit_event w (h.verb cmd) (h.event_of cmd reply) (ran h w cmd k g)).0 ≡ err x
      → h.is_mutation cmd' ≡ true
      → w'.now - w.now_after < k.health.probe_interval_ms
      → let (answer, k') = apply h w cmd k in
        (answer ≡ refused (lost_text (h.verb cmd) x k'.health.session_start_ms) store_not_durable)
        × ((text : String) × (apply h w' cmd' k' ≡ (refused text store_degraded, k')))
  apply-not_durable k g reply x w' cmd' mut passed current answered lost mut' soon =
      let (says, shut) = apply_lost k g reply x mut passed current answered lost in
      let reason = "persist failed after '" <> h.verb cmd <> "': " <> x in
      let kept = admit_mutation-interval w.now w.probe k.health in
      (
        says,
        (
          degraded_text reason (apply h w cmd k).1.health.session_start_ms,
          apply-closed h w' cmd' (apply h w cmd k).1 g w.now_after reason shut (ground arith) mut',
        ),
      )
