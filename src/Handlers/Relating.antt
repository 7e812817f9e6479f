-- ===== src/Handlers/Relating.antt =====
-- server/src/handlers/core.rs: the command that creates an item, and the typed edges of a request.
--
-- `predicates` and `classes` are the vocabulary in force, and `envs` gives the clock readings and
-- random ids of each call in turn.

pub mod Allowed
pub mod Created
use arrow_kanban.Prelude.{
  ℕ, suc, ◌+◌, ◌*◌, length, String, Bool, true, false, not, ◌&&◌, ◌||◌, ◌==◌, ◌<>◌, Option, none,
  some, List, [], ◌∷◌, ◌++◌, map, any, if◌then◌else◌, Result, ok, err, is_ok, contains,
}
use arrow_kanban.ItemType.{ItemType, as_str, from_str_loose}
use arrow_kanban.Crud.{KanbanStore, Env}
use arrow_kanban.Crud.Rows.{get_item}
use arrow_kanban.Crud.Fields.{
  ListColumn, update_title, update_priority, update_assignee, update_tags, update_body,
  update_related, update_depends_on, add_to_list_field, remove_from_list_field,
}
use arrow_kanban.Crud.Create.{CreateItemInput, create_item}
use arrow_kanban.Relations.{RelationsStore, add_relation, remove_relation}
use arrow_kanban.Events.Effects.{Stores}
use arrow_kanban.RelationVocab.{
  Predicate, EntityClass, EdgeError, validate_edge, flat_column_for, parse_spec, type_from_id,
  text_of,
}
use arrow_kanban.Handlers.{
  Refusal, Handler, ◌>>=◌, ◌>>◌, reply, asks, given, invalid_type, malformed_relation,
  invalid_relation, no_subject, entity_relate_only,
}

pub record CreateRequest : Type 0 where
  pub title : String
  pub item_type : String
  pub priority : Option String
  pub assignee : Option String
  pub tags : List String
  pub related : List String
  pub depends_on : List String
  pub body : Option String
  pub relate : List String

pub record CreateResponse : Type 0 where
  pub id : String
  pub title : String
  pub item_type : String
  pub status : String
  pub relationships : List String

abbrev pub Edges : Type 0
Edges = List (String × String)

-- `format!("{pred}:{target}")`
abbrev pub spec_of : String × String → String
spec_of (pred, target) = pred <> ":" <> target

-- The loop of `handle_create_typed` over its edges.
unfoldable pub record_edges : (ℕ → Env) → String → Edges → RelationsStore → RelationsStore
unfolding add_relation
record_edges envs id [] s = s
record_edges envs id ((pred, target) ∷ edges) s =
    record_edges (λ n. envs (suc n)) id edges
      (add_relation ((envs 0).uuid 0) ((envs 0).now 0) id target pred s).1

abbrev pub push_new : String → List String → List String
push_new x xs = if contains xs x then xs else xs ++ x ∷ []

-- `source_id.unwrap_or("<new>")`
abbrev pub source_or_new : Option String → String
source_or_new (some id) = id
source_or_new none = "<new>"

module _ (predicates : List Predicate) (classes : List EntityClass) where
  unfoldable pub parse_and_validate : List String → String → Option String → Result Refusal Edges
  unfolding parse_spec type_from_id validate_edge
  parse_and_validate [] source_type source_id = ok []
  parse_and_validate (spec ∷ specs) source_type source_id =
      let rest = parse_and_validate specs source_type source_id in
      elim (parse_spec spec) [
        | none ↦ err (malformed_relation spec)
        | some (pred, target) ↦
            let verdict =
              validate_edge predicates pred (source_or_new source_id) source_type target
                (type_from_id classes target) in
            elim verdict [
              | err e ↦ err (invalid_relation e)
              | ok p ↦ elim rest [ err x ↦ err x | ok edges ↦ ok ((p.name, target) ∷ edges) ]
            ]
      ]

  -- The loop over the edges that project onto the flat lists of a new item.
  unfoldable pub project_edges : Edges → List String × List String → List String × List String
  unfolding flat_column_for
  project_edges [] flat = flat
  project_edges ((pred, target) ∷ edges) (related, depends_on) =
      project_edges edges (elim (flat_column_for predicates pred) [
        | none ↦ (related, depends_on)
        | some column ↦
            if column == "related"
            then (push_new target related, depends_on)
            else if column == "depends_on"
            then (related, push_new target depends_on)
            else (related, depends_on)
      ])

  -- `CreateItemInput { .. }`
  abbrev pub input_from : CreateRequest → ItemType → Edges → CreateItemInput
  input_from req item_type edges =
      let flat = project_edges edges (req.related, req.depends_on) in
      record {
        title = req.title;
        item_type = item_type;
        priority = req.priority;
        assignee = req.assignee;
        tags = req.tags;
        related = flat.0;
        depends_on = flat.1;
        body = req.body;
        embedding = none;
      }

  -- From `store.create_item` on.
  unfoldable pub write_create :
      (ℕ → Env) → CreateRequest → ItemType → Edges → Stores → Result Refusal CreateResponse × Stores
  unfolding project_edges create_item record_edges
  write_create envs req item_type edges d =
      let (created, s) =
        asks "CREATE_FAILED" (create_item (envs 0) (input_from req item_type edges)) d.store in
      elim created [
        | err x ↦ (err x, record d { store = s })
        | ok id ↦ (
          ok (record {
            id = id;
            title = req.title;
            item_type = req.item_type;
            status = "backlog";
            relationships = map spec_of edges;
          }),
          record { store = s; relations = record_edges (λ n. envs (suc n)) id edges d.relations },
        )
      ]

  unfoldable pub handle_create_typed :
      (ℕ → Env) → CreateRequest → Stores → Result Refusal CreateResponse × Stores
  unfolding from_str_loose as_str parse_and_validate write_create
  handle_create_typed envs req d = elim (from_str_loose req.item_type) [
    | none ↦ (err (invalid_type req.item_type), d)
    | some item_type ↦ elim (parse_and_validate req.relate (as_str item_type) none) [
      | err x ↦ (err x, d)
      | ok edges ↦ write_create envs req item_type edges d
    ]
  ]
