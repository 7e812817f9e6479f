-- ===== src/Scenarios/Server.antt =====
-- A server over a list of notes, at which each command adds one.
use arrow_kanban.Prelude.{
  contains, if◌then◌else◌, ℕ, String, ◌≡◌, refl, true, false, none, some, List, [], ◌∷◌, arith,
  Result, ok, err,
}
use arrow_kanban.Lease.{
  WriterOwner, OwnerFile, undecodable, present, Process, LocalWriterLease, fresh, acquire_with,
  read_current_epoch, is_current,
}
use arrow_kanban.Lease.Fencing.{Takes, done, acquired, is_current-Takes, acquire_with-undecodable}
use arrow_kanban.Health.{
  HealthGate, healthy, admit_mutation, is_degraded, record_persist_success, recover,
}
use arrow_kanban.Storage.{
  log, CommittedEvent, entry, ParquetBackend, Faults, add_line, commit, load, read_events_since,
}
use arrow_kanban.Storage.Commit.{IsSound, commit-failed, commit-events_since, committed_event}
use arrow_kanban.Storage.Recovery.{load-commit, load-crash}
use arrow_kanban.Engine.{
  commit_event, Code, store_degraded, store_not_durable, refused, replied, World, KanbanEngine,
  Handlers, apply, fence, execute, conclude, lost_text,
}
use arrow_kanban.Engine.Steps.{IsRefusal}
use arrow_kanban.Engine.Durable.{apply-acknowledged, apply-Takes, apply-IsSound}
use arrow_kanban.Engine.Degraded.{apply-not_durable}

abbrev handlers : Handlers (List String) String String ℕ
handlers = record {
  verb = λ note. "note";
  is_mutation = λ note. true;
  route = λ note notes. (ok 1, note ∷ notes);
  event_of = λ note reply. some note;
}

abbrev owner : WriterOwner
owner = record { epoch = 4; pid = 70; hostname = "host"; started_at_ms = 5; nonce = 6 }

abbrev lease : LocalWriterLease
lease = record { held = 4; owner = owner; acquisition = fresh }

abbrev other_process : Process
other_process = record {
  pid = 71;
  hostname = "host";
  started_at_ms = 8;
  nonce = 9;
  is_alive = λ pid. true;
}

abbrev first : CommittedEvent String
first = record { seq = 1; epoch = 4; event = "a" }

abbrev backend : ParquetBackend (List String) String
backend = record {
  dir = record { lines = entry first ∷ []; files = "a" ∷ []; manifest = some 1; marker = none };
  committed_seq = 1;
}

abbrev no_faults : Faults (List String) String
no_faults = record { append = none; truncates = true; save = none; publishes = true }

abbrev full_disk : Faults (List String) String
full_disk = record { append = some ("full", []); truncates = true; save = none; publishes = true }

abbrev gate : HealthGate
gate = record {
  health = healthy;
  last_probe_ms = 0;
  probe_interval_ms = 10000;
  session_start_ms = 0;
}

abbrev engine : KanbanEngine (List String) String
engine = record { state = "a" ∷ []; health = gate; lease = lease; backend = backend }

abbrev world : World (List String) String
world = record {
  owner_file = present owner;
  now = 100;
  now_after = 101;
  probe = none;
  faults = no_faults;
}

abbrev full_world : World (List String) String
full_world = record {
  owner_file = present owner;
  now = 100;
  now_after = 101;
  probe = none;
  faults = full_disk;
}

abbrev file_after_takeover : OwnerFile
file_after_takeover = (acquire_with other_process (present owner) none).1

abbrev fenced_world : World (List String) String
fenced_world = record {
  owner_file = file_after_takeover;
  now = 100;
  now_after = 101;
  probe = none;
  faults = no_faults;
}

abbrev takeover : Takes (present owner) file_after_takeover 1
takeover = acquired (present owner) (present owner) 0 other_process (done (present owner))

backend-IsSound : IsSound backend
backend-IsSound = (omega arith, refl)

abbrev replay : String → List String → Result String (List String)
replay note notes = ok (note ∷ notes)

is_current_lem : is_current lease (present owner) ≡ ok true
unfolding is_current read_current_epoch
is_current_lem = refl

answers : (apply handlers world "b" engine).0 ≡ replied 1
unfolding apply fence execute conclude admit_mutation is_degraded is_current read_current_epoch
    commit add_line record_persist_success recover
answers = refl

apply-acknowledged_example :
    let after = (apply handlers world "b" engine).1 in
    (ev : String) × (is_current lease (present owner) ≡ ok true)
    × (handlers.route "b" ("a" ∷ []) ≡ (ok 1, after.state))
    × (handlers.event_of "b" 1 ≡ some ev)
    × (after.backend.committed_seq ≡ 2)
    × (after.backend.dir.files ≡ after.state)
    × (read_events_since after.backend.dir 0
        ≡ ok (first ∷ record { seq = 2; epoch = 4; event = ev } ∷ []))
    × (is_degraded after.health ≡ false)
apply-acknowledged_example =
    apply-acknowledged handlers world "b" engine 1 0 backend-IsSound (omega arith) (omega arith)
      refl answers

apply-Takes_example :
    ((m : String) × (c : Code) × ((apply handlers fenced_world "b" engine).0 ≡ refused m c)
      × IsRefusal c)
    × ((apply handlers fenced_world "b" engine).1.state ≡ "a" ∷ [])
    × ((apply handlers fenced_world "b" engine).1.backend ≡ backend)
apply-Takes_example =
    apply-Takes handlers fenced_world "b" engine (present owner) 1 takeover (omega arith)
      is_current_lem (omega arith) refl

passed : admit_mutation full_world.now full_world.probe engine.health ≡ (ok tt, engine.health)
unfolding admit_mutation is_degraded
passed = refl

lost :
    (commit_event full_world "note"
      (some "b")
      (record engine { state = "b" ∷ "a" ∷ []; health = engine.health })).0
    ≡ err "commit-log append failed: full"
unfolding commit
lost = refl

apply-not_durable_example :
    let (answer, k') = apply handlers full_world "b" engine in
    (answer
      ≡ refused
          (lost_text "note" "commit-log append failed: full" k'.health.session_start_ms)
          store_not_durable)
    × ((text : String) × (apply handlers world "c" k' ≡ (refused text store_degraded, k')))
apply-not_durable_example =
    apply-not_durable handlers full_world "b" engine engine.health 1
      "commit-log append failed: full" world "c" refl passed is_current_lem refl lost refl
      (omega arith)

apply-IsSound_example : IsSound (apply handlers full_world "b" engine).1.backend
apply-IsSound_example =
    apply-IsSound handlers full_world "b" engine backend-IsSound refl (omega arith)

commit_returns : (commit backend no_faults ("b" ∷ []) 4 "b").0 ≡ ok 2
unfolding commit
commit_returns = refl

abbrev committed_number : ℕ
committed_number = 2

commit-events_since_example :
    let after = (commit backend no_faults ("b" ∷ []) 4 "b").1 in
    (committed_number ≡ 2)
    × (after.committed_seq ≡ committed_number)
    × (after.dir.files ≡ "b" ∷ [])
    × (read_events_since after.dir 1 ≡ ok (record { seq = 2; epoch = 4; event = "b" } ∷ []))
commit-events_since_example =
    commit-events_since backend no_faults ("b" ∷ []) 4 "b" 2 1 backend-IsSound (omega arith)
      (omega arith) commit_returns

commit_fails : (commit backend full_disk ("b" ∷ []) 4 "b").0 ≡ err (log "full")
unfolding commit
commit_fails = refl

commit-failed_example :
    let after = (commit backend full_disk ("b" ∷ []) 4 "b").1 in
    (after.dir.lines ≡ entry first ∷ []) × (after.dir.manifest ≡ some 1) × (after.committed_seq ≡ 1)
commit-failed_example =
    commit-failed backend full_disk ("b" ∷ []) 4 "b" (log "full") commit_fails refl

load-commit_example :
    (load replay (commit backend no_faults ("b" ∷ []) 4 "b").1).0 ≡ ok ("b" ∷ [], 2)
load-commit_example =
    load-commit replay backend no_faults ("b" ∷ []) 4 "b" 2 backend-IsSound (omega arith) refl
      commit_returns

load-crash_example :
    (load replay (record backend {
      dir = record {
        lines = add_line (entry first ∷ []) (entry (committed_event backend 4 "b"));
        files = "a" ∷ [];
        manifest = some 1;
        marker = none;
      };
    })).0
    ≡ ok ("b" ∷ "a" ∷ [], 2)
load-crash_example =
    load-crash replay backend 4 "b" ("b" ∷ "a" ∷ []) backend-IsSound (omega arith) refl refl

is_current-Takes_example : is_current lease file_after_takeover ≡ ok false
is_current-Takes_example =
    is_current-Takes lease (present owner) file_after_takeover 1 takeover is_current_lem
      (omega arith)

abbrev first_lease : LocalWriterLease
first_lease = record { held = 1; owner = owner; acquisition = fresh }

acquire_with-undecodable_example :
    let taken = acquire_with other_process (undecodable "{") none in
    (is_current taken.0 taken.1 ≡ ok true) × (is_current first_lease taken.1 ≡ ok true)
acquire_with-undecodable_example = acquire_with-undecodable first_lease other_process "{" refl

abbrev no_manifest : Faults (List String) String
no_manifest = record { append = none; truncates = true; save = none; publishes = false }

commit_trails : (commit backend no_manifest ("b" ∷ []) 4 "b").0 ≡ ok 2
unfolding commit
commit_trails = refl

abbrev replay_present : String → List String → Result String (List String)
replay_present note notes = if contains notes note then ok notes else ok (note ∷ notes)
