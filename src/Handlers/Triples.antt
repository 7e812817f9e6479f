-- ===== src/Handlers/Triples.antt =====
-- server/src/handlers/relations.rs: the commands on one typed edge, and the query of an item's edges.
--
-- A predicate is taken as it is given: these commands do not ask the vocabulary for it, but for the
-- flat column of an edge that is removed.
use arrow_kanban.Prelude.{
  ◌≡◌, String, Bool, true, false, ℕ, List, [], map, keep, not, any-append, arith, eq_refl, Result,
  ok, err, length,
}
use arrow_kanban.Crud.{Env}
use arrow_kanban.Relations.{
  Relation, RelationsStore, is_edge, add_relation, remove_relation, has_relation, query_relations,
}
use arrow_kanban.Events.Effects.{Stores}
use arrow_kanban.RelationVocab.{Predicate}
use arrow_kanban.Handlers.{Refusal, relations_refused}
use arrow_kanban.Handlers.Updating.{remove_flat_projection}

-- `RelationAddRequest` and `RelationRemoveRequest`
pub record RelationRequest : Type 0 where
  pub source_id : String
  pub target_id : String
  pub predicate : String

-- The reply is the id of the row.
unfoldable pub handle_relation_add_typed :
    Env → RelationRequest → RelationsStore → Result Refusal String × RelationsStore
unfolding add_relation
handle_relation_add_typed e req s =
    let (id, s') = add_relation (e.uuid 0) (e.now 0) req.source_id req.target_id req.predicate s in
    (ok id, s')

-- The reply is whether the flat column held the edge too.
unfoldable pub handle_relation_remove_typed :
    List Predicate → Env → RelationRequest → Stores → Result Refusal Bool × Stores
unfolding remove_relation remove_flat_projection
handle_relation_remove_typed predicates e req d =
    let (removed, rows) = remove_relation req.source_id req.target_id req.predicate d.relations in
    elim removed [
      | err x ↦ (err (relations_refused "RELATION_REMOVE_FAILED" x), record d { relations = rows })
      | ok _ ↦
          let (flat, s) =
            remove_flat_projection predicates [] e req.source_id req.predicate req.target_id
              d.store in
          (ok flat, record { store = s; relations = rows })
    ]

pub record RelationRow : Type 0 where
  pub relation_id : String
  pub source : String
  pub target : String
  pub predicate : String

abbrev pub row_of : Relation → RelationRow
row_of r = record {
  relation_id = r.relation_id;
  source = r.source_id;
  target = r.target_id;
  predicate = r.predicate;
}

unfoldable pub relation_rows : List Relation → List RelationRow
relation_rows rs = map row_of (keep (λ (r : Relation). not r.deleted) rs)

-- The reply is the rows and their count.
unfoldable pub handle_relation_query_typed : String → RelationsStore → ℕ × List RelationRow
unfolding query_relations relation_rows
handle_relation_query_typed item_id s =
    let rows = relation_rows (query_relations s item_id) in (length rows, rows)

-- Any predicate is added, between any two ids.
handle_relation_add_typed-has :
    (e : Env) (req : RelationRequest) (s : RelationsStore)
    → has_relation (handle_relation_add_typed e req s).1 req.source_id req.target_id req.predicate
      ≡ true
unfolding handle_relation_add_typed add_relation has_relation
handle_relation_add_typed-has e req s = ground (
  arith,
  any-append (is_edge req.source_id req.target_id req.predicate) s
      ((add_relation (e.uuid 0) (e.now 0) req.source_id req.target_id req.predicate []).1),
  eq_refl req.source_id,
  eq_refl req.target_id,
  eq_refl req.predicate,
)

-- The removal of an edge that is not there is refused, and changes neither store.
handle_relation_remove_typed-absent :
    (predicates : List Predicate) (e : Env) (req : RelationRequest) (d : Stores)
    → has_relation d.relations req.source_id req.target_id req.predicate ≡ false
    → (handle_relation_remove_typed predicates e req d).1 ≡ d
unfolding handle_relation_remove_typed remove_relation has_relation
handle_relation_remove_typed-absent predicates e req d absent = ground arith
