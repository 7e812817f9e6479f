-- ===== src/Handlers/Updating.antt =====
-- server/src/handlers/core.rs: the command that updates an item, with its typed edges.
--
-- `predicates` and `classes` are the vocabulary in force, and `envs` gives the clock readings and
-- random ids of each call in turn.
pub mod Typed
pub mod Refusals
use arrow_kanban.Prelude.{
  ℕ, suc, ◌+◌, ◌*◌, length, String, Bool, true, false, not, ◌&&◌, ◌||◌, ◌==◌, ◌<>◌, Option, none,
  some, List, [], ◌∷◌, ◌++◌, map, any, if◌then◌else◌, Result, ok, err, is_ok, contains,
}
use arrow_kanban.ItemType.{ItemType, as_str, from_str_loose}
use arrow_kanban.Crud.{KanbanStore, Env}
use arrow_kanban.Crud.Rows.{get_item}
use arrow_kanban.Crud.Fields.{
  ListColumn, update_title, update_priority, update_assignee, update_tags, update_body,
  update_related, update_depends_on, add_to_list_field, remove_from_list_field,
}
use arrow_kanban.Crud.Create.{CreateItemInput, create_item}
use arrow_kanban.Relations.{RelationsStore, add_relation, remove_relation}
use arrow_kanban.Events.Effects.{Stores}
use arrow_kanban.RelationVocab.{
  Predicate, EntityClass, EdgeError, validate_edge, flat_column_for, parse_spec, type_from_id,
  text_of,
}
use arrow_kanban.Handlers.{
  Refusal, Handler, ◌>>=◌, ◌>>◌, reply, asks, given, invalid_type, malformed_relation,
  invalid_relation, no_subject, entity_relate_only,
}
use arrow_kanban.Handlers.Relating.{Edges, spec_of, parse_and_validate}

pub record UpdateRequest : Type 0 where
  pub id : String
  pub title : Option String
  pub priority : Option String
  pub assignee : Option String
  pub tags : Option (List String)
  pub body : Option String
  pub related : Option (List String)
  pub depends_on : Option (List String)
  pub relate : List String
  pub unrelate : List String

pub record UpdateReply : Type 0 where
  pub id : String
  pub updated : List String
  pub relationships_added : List String
  pub relationships_removed : List String

abbrev pub given_list : Option (List String) → (List String → Handler Unit) → Handler Unit
given_list none f = reply tt
given_list (some v) f = f v

-- The fields of a request that are given, in the order that they are written.
unfoldable pub write_fields : (ℕ → Env) → UpdateRequest → Handler Unit
unfolding update_title update_priority update_assignee update_tags update_body update_related
    update_depends_on
write_fields envs req = do
  given req.title (λ v. asks "UPDATE_FAILED" (update_title (envs 0) req.id v))
  given req.priority (λ v. asks "UPDATE_FAILED" (update_priority (envs 1) req.id (some v)))
  given req.assignee (λ v. asks "UPDATE_FAILED" (update_assignee req.id (some v)))
  given_list req.tags (λ v. asks "UPDATE_FAILED" (update_tags (envs 2) req.id v))
  given req.body (λ v. asks "UPDATE_FAILED" (update_body (envs 3) req.id (some v)))
  given_list req.related (λ v. asks "UPDATE_FAILED" (update_related (envs 4) req.id v))
  given_list req.depends_on (λ v. asks "UPDATE_FAILED" (update_depends_on (envs 5) req.id v))

-- A name in the reply for what was given.
abbrev pub named {ℓ} : {A : Type ℓ} → String → Option A → List String
named name none = []
named name (some a) = name ∷ []

abbrev pub named_if : {A : Type 0} → String → List A → List String
named_if name [] = []
named_if name (_ ∷ _) = name ∷ []

abbrev pub updated_of : UpdateRequest → List String → List String → List String
updated_of req added removed =
    named "title" req.title
    ++ named "priority" req.priority
    ++ named "assignee" req.assignee
    ++ named "tags" req.tags
    ++ named "body" req.body
    ++ named "related" req.related
    ++ named "depends_on" req.depends_on
    ++ named_if "relationships_added" added
    ++ named_if "relationships_removed" removed

abbrev pub is_given {ℓ} : {A : Type ℓ} → Option A → Bool
is_given none = false
is_given (some a) = true

abbrev pub wants_fields : UpdateRequest → Bool
wants_fields req =
    is_given req.title
    || is_given req.priority
    || is_given req.assignee
    || is_given req.tags
    || is_given req.body
    || is_given req.related
    || is_given req.depends_on

module _ (predicates : List Predicate) (classes : List EntityClass) where
  -- `flat_projection_col`
  unfoldable pub flat_projection_col : String → Option ListColumn
  unfolding flat_column_for
  flat_projection_col predicate = elim (flat_column_for predicates predicate) [
    | none ↦ none
    | some column ↦
        if column == "related"
        then some ListColumn.related
        else if column == "depends_on"
        then some ListColumn.depends_on
        else none
  ]

  unfoldable pub add_flat_projection : Env → String → String → String → KanbanStore → KanbanStore
  unfolding flat_projection_col add_to_list_field
  add_flat_projection e id predicate target s = elim (flat_projection_col predicate) [
    | none ↦ s
    | some col ↦ (add_to_list_field e id col target s).1
  ]

  unfoldable pub remove_flat_projection :
      Env → String → String → String → KanbanStore → Bool × KanbanStore
  unfolding flat_projection_col remove_from_list_field
  remove_flat_projection e id predicate target s = elim (flat_projection_col predicate) [
    | none ↦ (false, s)
    | some col ↦
        let (changed, s') = remove_from_list_field e id col target s in
        (elim changed [ ok b ↦ b | err _ ↦ false ], s')
  ]

  -- The loop over the edges that are added.
  unfoldable pub apply_edges : (ℕ → Env) → Bool → String → Edges → Stores → Stores
  unfolding add_relation add_flat_projection
  apply_edges envs is_item id [] d = d
  apply_edges envs is_item id ((pred, target) ∷ edges) d =
      apply_edges (λ n. envs (n + 2)) is_item id edges
        (record {
          relations =
              (add_relation ((envs 0).uuid 0) ((envs 0).now 0) id target pred d.relations).1;
          store = if is_item then add_flat_projection (envs 1) id pred target d.store else d.store;
        })

  -- The loop over the edges that are removed: both projections are tried.
  unfoldable pub withdraw_edges : (ℕ → Env) → Bool → String → Edges → Stores → List String × Stores
  unfolding remove_relation remove_flat_projection
  withdraw_edges envs is_item id [] d = ([], d)
  withdraw_edges envs is_item id ((pred, target) ∷ edges) d =
      let (typed, rows) = remove_relation id target pred d.relations in
      let (flat, s) =
        if is_item
        then remove_flat_projection (envs 0) id pred target d.store
        else (false, d.store) in
      let (removed, d') =
        withdraw_edges (λ n. envs (suc n)) is_item id edges
          (record { relations = rows; store = s }) in
      ((if is_ok typed || flat then spec_of (pred, target) ∷ removed else removed), d')

  -- An id of a class of the vocabulary that is no type of item.
  unfoldable pub is_entity_class : String → Bool
  unfolding type_from_id from_str_loose
  is_entity_class id = elim (type_from_id classes id) [
    | none ↦ false
    | some t ↦ not (is_given (from_str_loose t)) && any (λ (c : EntityClass). c.name == t) classes
  ]

  -- The test of the subject, before anything is written.
  unfoldable pub check_subject : UpdateRequest → Bool → Result Refusal Unit
  unfolding is_entity_class type_from_id
  check_subject req is_item =
      if is_item
      then ok tt
      else if not (is_entity_class req.id)
      then err (no_subject req.id)
      else if wants_fields req
      then err (entity_relate_only req.id (type_from_id classes req.id))
      else ok tt

  -- From `let mut updated` on.
  unfoldable pub write_update :
      (ℕ → Env)
      → UpdateRequest
      → Bool
      → Edges
      → Edges
      → Stores
      → Result Refusal UpdateReply × Stores
  unfolding write_fields apply_edges withdraw_edges
  write_update envs req is_item add_edges del_edges d =
      let (written, s) = write_fields envs req d.store in
      elim written [
        | err x ↦ (err x, record d { store = s })
        | ok _ ↦
            let (removed, d') =
              withdraw_edges (λ n. envs (n + 6 + 2 * length add_edges)) is_item req.id del_edges
                (apply_edges (λ n. envs (n + 6)) is_item req.id add_edges
                  (record d { store = s })) in
            (
              ok (record {
                id = req.id;
                updated = updated_of req (map spec_of add_edges) removed;
                relationships_added = map spec_of add_edges;
                relationships_removed = removed;
              }),
              d',
            )
      ]

  -- What must hold before anything is written: the edges to add and to remove.
  unfoldable pub validate_update : UpdateRequest → Bool → Result Refusal (Edges × Edges)
  unfolding check_subject parse_and_validate
  validate_update req is_item =
      let source_type = text_of (type_from_id classes req.id) in
      elim (check_subject req is_item) [
        | err x ↦ err x
        | ok _ ↦ elim (parse_and_validate predicates classes req.relate source_type (some req.id)) [
          | err x ↦ err x
          | ok add_edges ↦
              elim (parse_and_validate predicates classes req.unrelate source_type (some req.id)) [
                | err x ↦ err x
                | ok del_edges ↦ ok (add_edges, del_edges)
              ]
        ]
      ]

  unfoldable pub handle_update_typed :
      (ℕ → Env) → UpdateRequest → Stores → Result Refusal UpdateReply × Stores
  unfolding get_item validate_update write_update
  handle_update_typed envs req d =
      let is_item = is_ok (get_item d.store req.id) in
      elim (validate_update req is_item) [
        | err x ↦ (err x, d)
        | ok (add_edges, del_edges) ↦ write_update envs req is_item add_edges del_edges d
      ]
