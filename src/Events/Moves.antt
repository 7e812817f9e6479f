-- ===== src/Events/Moves.antt =====
-- server/src/events.rs: the replay of a move records a run each time.
use arrow_kanban.Prelude.{
  ℕ, suc, ◌+◌, String, ◌≡◌, refl, ap, ◌∙◌, Bool, true, false, Option, none, some, [], ◌∷◌, ◌++◌,
  arith, length, length-append, if◌then◌else◌, ok, ◌<>◌, eq_refl,
}
use arrow_kanban.Crud.{Item, KanbanStore, Env, later}
use arrow_kanban.Crud.Rows.{live}
use arrow_kanban.Crud.Rows.Laws.{live-after}
use arrow_kanban.Crud.Fields.{update_assignee, update_resolution, update_closed_by}
use arrow_kanban.Crud.Fields.Laws.{Edit, run_edit, edit_row, live-run_edit}
use arrow_kanban.Crud.Status.{update_status}
use arrow_kanban.Crud.Status.Laws.{moved, run_of, Keeps-moved, update_status-live}
use arrow_kanban.Events.{MovedEvent}
use arrow_kanban.Events.Effects.{Stores, Step, ◌>>>◌, skip, tried, quiet, if_some, replay_moved}

-- The item is live.
abbrev IsThere : String → KanbanStore → Type 0
IsThere id s = (row : Item) × (live s id ≡ some row)

-- A step that succeeds, keeps the runs and leaves the item live.
record Calm (id : String) (m : Step) : Type 0 where
  succeeds : (d : Stores) → (m d).0 ≡ ok tt
  same_runs : (d : Stores) → (m d).1.store.runs ≡ d.store.runs
  still_there : (d : Stores) → IsThere id d.store → IsThere id (m d).1.store

Calm-skip : (id : String) → Calm id skip
Calm-skip id = record { succeeds = λ d. refl; same_runs = λ d. refl; still_there = λ d h. h }

Calm-edit : (e : Env) (id : String) (c : Edit) → Calm id (quiet (run_edit e id c))
Calm-edit e id c = record {
  succeeds = λ d. refl;
  same_runs = λ d. (live-run_edit e id id c d.store).1;
  still_there = λ d (row, h).
      (edit_row e c row, (live-run_edit e id id c d.store).0 ∙ rw (eq_refl id, h) refl);
}

Calm-if_some :
    (id : String) {A : Type 0} (v : Option A) (f : A → Step)
    → ((a : A) → Calm id (f a))
    → Calm id (if_some v f)
Calm-if_some id none f h = Calm-skip id
Calm-if_some id (some a) f h = h a

Calm-if :
    (id : String) (b : Bool) (m k : Step) → Calm id m → Calm id k → Calm id (if b then m else k)
Calm-if id true m k p q = p
Calm-if id false m k p q = q

-- A step that succeeds, adds one run and leaves the item live.
record AddsRun (id : String) (m : Step) (d : Stores) : Type 0 where
  passes : (m d).0 ≡ ok tt
  one_more : length (m d).1.store.runs ≡ suc (length d.store.runs)
  there : IsThere id (m d).1.store

AddsRun-then :
    (id : String) (m k : Step) (d : Stores) → AddsRun id m d → Calm id k → AddsRun id (m >>> k) d
AddsRun-then id m k d a c =
    let same : (m >>> k) d ≡ k (m d).1 = rw a.passes refl in
    record {
      passes = ap (λ p. p.0) same ∙ c.succeeds (m d).1;
      one_more =
          ap (λ p. length p.1.store.runs) same ∙ ap length (c.same_runs (m d).1) ∙ a.one_more;
      there = rw same (c.still_there (m d).1 a.there);
    }

module _ (lookup : String → Option String) (e : MovedEvent) where
  AddsRun-tried :
      (env : Env) (what : String) (d : Stores)
      → IsThere e.id d.store
      → AddsRun e.id (tried what (update_status env e.id e.to e.assignee e.force e.reason)) d
  AddsRun-tried env what d (row, h) =
      let run = run_of (later 1 env) e.id (some row.status) e.to e.assignee e.force e.reason in
      let rs = d.store.runs ++ run ∷ [] in
      let move = update_status-live env e.id e.to e.assignee e.force e.reason d.store row h in
      record {
        passes = rw move refl;
        one_more = rw move (length-append d.store.runs (run ∷ []) ∙ omega arith);
        there = rw move (
          moved env e.to row,
          live-after e.id d.store row h (moved env e.to) rs (Keeps-moved env e.to),
        );
      }

  AddsRun-replay_moved :
      (envs : ℕ → Env) (d : Stores)
      → IsThere e.id d.store
      → AddsRun e.id (replay_moved lookup envs e) d
  unfolding replay_moved
  AddsRun-replay_moved envs d h =
      let assigned = if_some e.assignee (λ a. quiet (update_assignee e.id (some a))) in
      let freed = if e.unassign then quiet (update_assignee e.id none) else skip in
      let resolved = if_some e.resolution (λ r. quiet (update_resolution (envs 1) e.id (some r))) in
      let closed = if_some e.closed_by (λ c. quiet (update_closed_by (envs 2) e.id (some c))) in
      let first =
        tried ("replay move " <> e.id)
          (update_status (envs 0) e.id e.to e.assignee e.force e.reason) in
      let a1 =
        AddsRun-then e.id first assigned d (AddsRun-tried (envs 0) ("replay move " <> e.id) d h) (
          Calm-if_some e.id e.assignee (λ a. quiet (update_assignee e.id (some a)))
            (λ a. Calm-edit (envs 0) e.id (Edit.assignee (some a)))) in
      let a2 = AddsRun-then e.id (first >>> assigned) freed d a1 (
        Calm-if e.id e.unassign (quiet (update_assignee e.id none)) skip
          (Calm-edit (envs 0) e.id (Edit.assignee none)) (Calm-skip e.id)) in
      let a3 = AddsRun-then e.id (first >>> assigned >>> freed) resolved d a2 (
        Calm-if_some e.id e.resolution (λ r. quiet (update_resolution (envs 1) e.id (some r)))
          (λ r. Calm-edit (envs 1) e.id (Edit.resolution (some r)))) in
      AddsRun-then e.id (first >>> assigned >>> freed >>> resolved) closed d a3 (
        Calm-if_some e.id e.closed_by (λ c. quiet (update_closed_by (envs 2) e.id (some c)))
          (λ c. Calm-edit (envs 2) e.id (Edit.closed_by (some c))))

  -- Replaying a move of a live item twice adds two runs, though the move was one.
  pub length-runs_replay_moved :
      (envs envs' : ℕ → Env) (d : Stores) (row : Item)
      → live d.store e.id ≡ some row
      → length (replay_moved lookup envs' e (replay_moved lookup envs e d).1).1.store.runs
        ≡ length d.store.runs + 2
  length-runs_replay_moved envs envs' d row h =
      let first = AddsRun-replay_moved envs d (row, h) in
      let second = AddsRun-replay_moved envs' (replay_moved lookup envs e d).1 first.there in
      omega (arith, first.one_more, second.one_more)
