-- ===== src/Health.antt =====
-- server/src/health.rs: the write-durability gate.
--
-- A call takes the reading of the clock in milliseconds that it uses, and the error of the canary
-- write if it makes one that fails. Where the source reads the clock twice in a row the readings
-- are one.
use arrow_kanban.Prelude.{
  ℕ, ◌-◌, String, Bool, true, false, Option, none, some, if◌then◌else◌, Result, ok, err, leb, ◌<>◌,
}

pub data Health : Type 0 where
  healthy : Health
  -- the reason, and since when
  degraded : String → ℕ → Health

pub record HealthGate : Type 0 where
  pub health : Health
  pub last_probe_ms : ℕ
  pub probe_interval_ms : ℕ
  pub session_start_ms : ℕ

abbrev pub default_probe_interval_ms : ℕ
default_probe_interval_ms = 10000

unfoldable pub new : ℕ → HealthGate
new now = record {
  health = healthy;
  last_probe_ms = 0;
  probe_interval_ms = default_probe_interval_ms;
  session_start_ms = now;
}

abbrev pub degraded_test : Health → Bool
degraded_test healthy = false
degraded_test (degraded reason at) = true

unfoldable pub is_degraded : HealthGate → Bool
is_degraded g = degraded_test g.health

abbrev pub reason_of : Health → String
reason_of healthy = "store is not accepting durable writes"
reason_of (degraded reason at) = reason

-- The time stays that of the first failure, and the reason is the last.
abbrev pub degrade_health : ℕ → String → Health → Health
degrade_health now reason healthy = degraded reason now
degrade_health now reason (degraded r at) = degraded reason at

unfoldable pub degrade : ℕ → String → HealthGate → HealthGate
degrade now reason g = record g { health = degrade_health now reason g.health; last_probe_ms = now }

unfoldable pub recover : HealthGate → HealthGate
recover g = record g { health = healthy }

unfoldable pub probe_now : ℕ → Option String → HealthGate → HealthGate
probe_now now none g = let r = recover g in record r { last_probe_ms = now }
probe_now now (some e) g =
    let r = degrade now ("store is not writable: " <> e) g in record r { last_probe_ms = now }

-- The interval since the last probe has passed. `saturating_sub` is the subtraction here.
unfoldable pub probe_due : ℕ → HealthGate → Bool
probe_due now g = leb g.probe_interval_ms (now - g.last_probe_ms)

-- The throttled probe of a degraded gate.
abbrev pub readmit : ℕ → Option String → HealthGate → Result String Unit × HealthGate
readmit now none g = (ok tt, let r = record g { last_probe_ms = now } in recover r)
readmit now (some e) g = (err (reason_of g.health), record g { last_probe_ms = now })

unfoldable pub admit_mutation : ℕ → Option String → HealthGate → Result String Unit × HealthGate
admit_mutation now probe g =
    if is_degraded g
    then (if probe_due now g then readmit now probe g else (err (reason_of g.health), g))
    else (ok tt, g)

unfoldable pub record_persist_failure : ℕ → String → String → HealthGate → HealthGate
record_persist_failure now command e g =
    degrade now ("persist failed after '" <> command <> "': " <> e) g

unfoldable pub record_persist_success : HealthGate → HealthGate
record_persist_success g = recover g
