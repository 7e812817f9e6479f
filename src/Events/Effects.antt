-- ===== src/Events/Effects.antt =====
-- server/src/events.rs: the replay of one event onto the stores.
--
-- The vocabulary of relations is read as its `lookup`: the name of a predicate, if it has it. An
-- error keeps what it is about and the error below, where the source prints both.
use Prim.Native.Char.{code}
use arrow_kanban.Prelude.{
  ℕ, suc, ◌+◌, ◌*◌, length, ◌<>◌, String, true, Option, none, some, List, [], ◌∷◌, ◌++◌, ◌==◌, eqb,
  contains, if◌then◌else◌, Result, ok, err, is_ok,
}
use arrow_kanban.ItemType.{ItemType, from_str_loose}
use arrow_kanban.Crud.{KanbanStore, CrudError, Env, Action}
use arrow_kanban.Crud.Rows.{get_item}
use arrow_kanban.Crud.Fields.{
  ListColumn, update_title, update_priority, update_assignee, update_tags, update_body,
  update_related, update_depends_on, update_resolution, update_closed_by, update_rank,
  set_attempt_count, add_to_list_field, remove_from_list_field,
}
use arrow_kanban.Crud.Status.{update_status, delete_item}
use arrow_kanban.Crud.Create.{CreateItemInput, create_item_with_id}
use arrow_kanban.Crud.Comments.{add_comment, has_comment, author_of}
use arrow_kanban.Crud.Ratify.{ratify_phase}
use arrow_kanban.Relations.{
  RelationsStore, RelationError, add_relation, remove_relation, has_relation,
}
use arrow_kanban.Events.{CreatedEvent, MovedEvent, RequeuedEvent, UpdatedEvent, MutationEvent}

pub data ReplayError : Type 0 where
  store_error : String → CrudError → ReplayError
  relation_error : String → RelationError → ReplayError
  unknown_item_type : String → ReplayError

-- The two stores that a load rebuilds.
pub record Stores : Type 0 where
  pub store : KanbanStore
  pub relations : RelationsStore

-- A step of a replay: what it writes, and whether it failed.
abbrev pub Step : Type 0
Step = Stores → Result ReplayError Unit × Stores

abbrev pub after_step : Result ReplayError Unit → Step → Stores → Result ReplayError Unit × Stores
after_step (ok tt) k d = k d
after_step (err x) k d = (err x, d)

infixl 5 ◌>>>◌
abbrev pub ◌>>>◌ : Step → Step → Step
(m >>> k) d = let (r, d') = m d in after_step r k d'

abbrev pub skip : Step
skip d = (ok tt, d)

abbrev pub blame : {A : Type 0} → String → Result CrudError A → Result ReplayError Unit
blame what (ok a) = ok tt
blame what (err x) = err (store_error what x)

-- `store.method(..).map_err(..)?`
abbrev pub tried : {A : Type 0} → String → Action A → Step
tried what m d = let (r, s) = m d.store in (blame what r, record d { store = s })

-- `let _ = store.method(..)`
abbrev pub quiet : {A : Type 0} → Action A → Step
quiet m d = (ok tt, record d { store = (m d.store).1 })

-- `if let Some(v) = .. { .. }`
abbrev pub if_some : {A : Type 0} → Option A → (A → Step) → Step
if_some none f = skip
if_some (some a) f = f a

-- `split_once(':')`
unfoldable pub split_once : String → Option (String × String)
split_once String.[] = none
split_once (String.◌∷◌ c s) =
    let rest = split_once s in
    if eqb (code c) 58
    then some (String.[], s)
    else elim rest [ none ↦ none | some (p, t) ↦ some (String.◌∷◌ c p, t) ]

unfoldable pub parse_relationship_specs : List String → List (String × String)
parse_relationship_specs [] = []
parse_relationship_specs (s ∷ ss) =
    let rest = parse_relationship_specs ss in
    elim (split_once s) [ none ↦ rest | some edge ↦ edge ∷ rest ]

-- `relation_vocab::flat_column_for` and `flat_col_for`, of the vocabulary's name of a predicate.
abbrev pub column_of : Option String → Option ListColumn
column_of none = none
column_of (some name) =
    if name == "related"
    then some ListColumn.related
    else if name == "dependsOn"
    then some ListColumn.depends_on
    else none

-- The flat columns of a new row: the event's, with the targets of the edges that project onto them.
unfoldable pub merge_flat :
    (String → Option String)
    → List (String × String)
    → List String × List String
    → List String × List String
merge_flat lookup [] (related, depends_on) = (related, depends_on)
merge_flat lookup ((predicate, target) ∷ edges) (related, depends_on) =
    elim (column_of (lookup predicate)) [
      | some ListColumn.related ↦
          merge_flat lookup edges
            (if contains related target then related else related ++ target ∷ [], depends_on)
      | some ListColumn.depends_on ↦
          merge_flat lookup edges
            (related, if contains depends_on target then depends_on else depends_on ++ target ∷ [])
      | some ListColumn.tags ↦ merge_flat lookup edges (related, depends_on)
      | none ↦ merge_flat lookup edges (related, depends_on)
    ]

-- `add_relation` under a random id, at the clock.
unfoldable pub add_edge : Env → String → String → String → Step
add_edge e source target predicate d = (
  ok tt,
  record d {
    relations = (add_relation (e.uuid 0) (e.now 0) source target predicate d.relations).1;
  },
)

-- The loops over the edges. `envs` gives the environment of each call in turn.
unfoldable pub add_edges : (ℕ → Env) → String → List (String × String) → Step
add_edges envs id [] = skip
add_edges envs id ((predicate, target) ∷ edges) =
    add_edge (envs 0) id target predicate >>> add_edges (λ n. envs (suc n)) id edges

unfoldable pub remove_edge : String → String → String → Step
remove_edge source target predicate d =
    (ok tt, record d { relations = (remove_relation source target predicate d.relations).1 })

unfoldable pub relate_all :
    (String → Option String) → (ℕ → Env) → String → List (String × String) → Step
relate_all lookup envs id [] = skip
relate_all lookup envs id ((predicate, target) ∷ edges) =
    (λ d.
      if has_relation d.relations id target predicate
      then skip d
      else add_edge (envs 0) id target predicate d)
    >>> if_some (column_of (lookup predicate))
        (λ col. quiet (add_to_list_field (envs 1) id col target))
    >>> relate_all lookup (λ n. envs (n + 2)) id edges

unfoldable pub unrelate_all :
    (String → Option String) → (ℕ → Env) → String → List (String × String) → Step
unrelate_all lookup envs id [] = skip
unrelate_all lookup envs id ((predicate, target) ∷ edges) =
    remove_edge id target predicate
    >>> if_some (column_of (lookup predicate))
        (λ col. quiet (remove_from_list_field (envs 0) id col target))
    >>> unrelate_all lookup (λ n. envs (suc n)) id edges

-- The row that a creation is replayed as.
abbrev pub input_of : (String → Option String) → CreatedEvent → ItemType → CreateItemInput
input_of lookup e item_type =
    let flat =
      merge_flat lookup (parse_relationship_specs e.relationships) (e.related, e.depends_on) in
    record {
      title = e.title;
      item_type = item_type;
      priority = e.priority;
      assignee = e.assignee;
      tags = e.tags;
      related = flat.0;
      depends_on = flat.1;
      body = e.body;
      embedding = none;
    }

module _ (lookup : String → Option String) (envs : ℕ → Env) where
  unfoldable pub replay_created : CreatedEvent → Step
  replay_created e d =
      if is_ok (get_item d.store e.id) then (ok tt, d) else elim (from_str_loose e.item_type) [
        | none ↦ (err (unknown_item_type e.item_type), d)
        | some item_type ↦
            (tried ("replay create " <> e.id)
                  (create_item_with_id (envs 0) e.id (input_of lookup e item_type))
                >>> add_edges (λ n. envs (suc n)) e.id (parse_relationship_specs e.relationships))
              d
      ]

  unfoldable pub replay_moved : MovedEvent → Step
  replay_moved e =
      tried ("replay move " <> e.id) (update_status (envs 0) e.id e.to e.assignee e.force e.reason)
      >>> if_some e.assignee (λ a. quiet (update_assignee e.id (some a)))
      >>> (if e.unassign then quiet (update_assignee e.id none) else skip)
      >>> if_some e.resolution (λ r. quiet (update_resolution (envs 1) e.id (some r)))
      >>> if_some e.closed_by (λ c. quiet (update_closed_by (envs 2) e.id (some c)))

  unfoldable pub replay_requeued : RequeuedEvent → Step
  replay_requeued e =
      tried ("replay requeue " <> e.id)
        (update_status (envs 0) e.id e.status e.agent true (some e.reason))
      >>> quiet (update_assignee e.id none)
      >>> tried ("replay requeue " <> e.id) (set_attempt_count e.id e.attempts)
      >>> if_some e.dead_letter_tag
          (λ tag. quiet (add_to_list_field (envs 1) e.id ListColumn.tags tag))

  unfoldable pub replay_deleted : String → Step
  replay_deleted id d =
      if is_ok (get_item d.store id)
      then tried ("replay delete " <> id) (delete_item id) d
      else (ok tt, d)

  unfoldable pub replay_updated : UpdatedEvent → Step
  replay_updated e =
      if_some e.title (λ t. quiet (update_title (envs 0) e.id t))
      >>> if_some e.priority (λ p. quiet (update_priority (envs 1) e.id (some p)))
      >>> if_some e.assignee (λ a. quiet (update_assignee e.id (some a)))
      >>> if_some e.tags (λ t. quiet (update_tags (envs 2) e.id t))
      >>> if_some e.body (λ b. quiet (update_body (envs 3) e.id (some b)))
      >>> if_some e.related (λ r. quiet (update_related (envs 4) e.id r))
      >>> if_some e.depends_on (λ r. quiet (update_depends_on (envs 5) e.id r))
      >>> relate_all lookup (λ n. envs (n + 6)) e.id (parse_relationship_specs e.relate)
      >>> unrelate_all lookup (λ n. envs (n + 6 + 2 * length (parse_relationship_specs e.relate)))
          e.id (parse_relationship_specs e.unrelate)

  unfoldable pub replay_commented : String → String → Option String → Step
  replay_commented id text agent d =
      if has_comment d.store id (author_of agent) text
      then (ok tt, d)
      else tried ("replay comment " <> id) (add_comment (envs 0) id text agent) d

  unfoldable pub replay_relation_added : String → String → String → Step
  replay_relation_added source target predicate d =
      if has_relation d.relations source target predicate
      then (ok tt, d)
      else add_edge (envs 0) source target predicate d

  -- The removal of the typed edge, where it is there, and then of its flat projection.
  unfoldable pub replay_relation_removed : String → String → String → Step
  replay_relation_removed source target predicate =
      (λ d.
        if has_relation d.relations source target predicate
        then remove_edge source target predicate d
        else skip d)
      >>> if_some (column_of (lookup predicate))
          (λ col. quiet (remove_from_list_field (envs 0) source col target))

  unfoldable pub replay_into : {Payload : Type 0} → MutationEvent Payload → Step
  unfolding replay_created replay_moved replay_requeued replay_deleted replay_updated
      replay_commented replay_relation_added replay_relation_removed
  replay_into (MutationEvent.created e) = replay_created e
  replay_into (MutationEvent.moved e) = replay_moved e
  replay_into (MutationEvent.requeued e) = replay_requeued e
  replay_into (MutationEvent.deleted e) = replay_deleted e.id
  replay_into (MutationEvent.ratified e) =
      tried ("replay ratify " <> e.phase_tag) (ratify_phase (envs 0) e.phase_tag)
  replay_into (MutationEvent.updated e) = replay_updated e
  replay_into (MutationEvent.commented e) = replay_commented e.id e.text e.agent
  replay_into (MutationEvent.ranked e) =
      tried ("replay rank " <> e.id) (update_rank (envs 0) e.id e.rank)
  replay_into (MutationEvent.relation_added e) = replay_relation_added e.source e.target e.predicate
  replay_into (MutationEvent.relation_removed e) =
      replay_relation_removed e.source e.target e.predicate
  replay_into (MutationEvent.extension namespace kind payload) = skip
