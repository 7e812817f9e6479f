-- ===== src/Scenarios/Replays.antt =====
-- The replay of events onto a board with one claimed item.
use arrow_kanban.Prelude.{
  ℕ, ◌+◌, String, ◌≡◌, refl, false, Option, none, some, [], ◌∷◌, arith, length, ok,
}
use arrow_kanban.Crud.{Env, Item}
use arrow_kanban.Crud.Rows.{live, find_item, get_item, modify}
use arrow_kanban.Crud.Status.{delete_item}
use arrow_kanban.Crud.Calls.Keeping.{IsUnique}
use arrow_kanban.Events.{MovedEvent, MutationEvent}
use arrow_kanban.Events.Effects.{Stores, replay_into, replay_deleted, replay_moved}
use arrow_kanban.Events.Replay.{replay_into-twice}
use arrow_kanban.Events.Moves.{length-runs_replay_moved}

abbrev pub envs : ℕ → Env
envs k = record { now = λ n. 1000 + n; uuid = λ n. "run"; digest = λ text. "digest" }

abbrev pub lookup : String → Option String
lookup predicate = some predicate

abbrev pub claimed : Item
claimed = record {
  id = "EX-1300";
  title = "a title";
  item_type = "expedition";
  status = "in_progress";
  priority = none;
  created = 10;
  assignee = some "ann";
  board = "development";
  tags = [];
  related = [];
  depends_on = [];
  body = none;
  body_hash = none;
  deleted = false;
  resolution = none;
  closed_by = none;
  updated_at = some 10;
  priority_rank = none;
  attempt_count = none;
  embedding = none;
}

abbrev pub stores : Stores
stores = record {
  store = record { items = claimed ∷ []; runs = []; comments = [] };
  relations = [];
}

abbrev pub deletion : MutationEvent String
deletion = MutationEvent.deleted (record { id = "EX-1300"; agent = none })

unique : IsUnique stores.store
unique j = ground arith

pub deletes : (replay_into lookup envs deletion stores).0 ≡ ok tt
unfolding replay_into replay_deleted delete_item modify get_item live find_item
deletes = refl

replay_into-twice_example :
    let t = (replay_into lookup envs deletion stores).1 in
    replay_into lookup envs deletion t ≡ (ok tt, t)
replay_into-twice_example = replay_into-twice lookup envs envs stores deletion tt unique deletes

abbrev move : MovedEvent
move = record {
  id = "EX-1300";
  from = "in_progress";
  to = "review";
  assignee = some "ann";
  force = false;
  reason = none;
  resolution = none;
  closed_by = none;
  agent = none;
  unassign = false;
}

there : live stores.store "EX-1300" ≡ some claimed
unfolding live find_item
there = refl

length-runs_replay_moved_example :
    length (replay_moved lookup envs move (replay_moved lookup envs move stores).1).1.store.runs ≡ 2
length-runs_replay_moved_example =
    length-runs_replay_moved lookup move envs envs stores claimed there
