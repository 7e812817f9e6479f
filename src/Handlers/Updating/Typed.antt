-- ===== src/Handlers/Updating/Typed.antt =====
-- server/src/handlers/core.rs: the types of the edges that stand after an update.
use arrow_kanban.Prelude.{
  ℕ, suc, ◌+◌, ◌*◌, length, ◌≡◌, String, Bool, some, List, [], ◌∷◌, arith, ok, is_ok, Result-cases,
  inl, inr,
}
use arrow_kanban.Crud.{Env}
use arrow_kanban.Crud.Rows.{get_item}
use arrow_kanban.Events.Effects.{Stores}
use arrow_kanban.RelationVocab.{Predicate, EntityClass, type_from_id, text_of}
use arrow_kanban.Handlers.Relating.{Edges, parse_and_validate}
use arrow_kanban.Handlers.Updating.{
  UpdateRequest, write_fields, check_subject, apply_edges, withdraw_edges, write_update,
  validate_update, handle_update_typed,
}
use arrow_kanban.Handlers.Relating.Allowed.{
  Allowed, AllTyped, parse_and_validate-Allowed, add_relation-AllTyped, remove_relation-AllTyped,
}

module _ (predicates : List Predicate) (classes : List EntityClass) where
  apply_edges-AllTyped :
      (envs : ℕ → Env) (is_item : Bool) (id : String) (edges : Edges) (d : Stores)
      → Allowed predicates classes (text_of (type_from_id classes id)) edges
      → AllTyped predicates classes d.relations
      → AllTyped predicates classes
          (apply_edges predicates classes envs is_item id edges d).relations
  unfolding apply_edges
  apply_edges-AllTyped envs is_item id [] d allowed h = h
  apply_edges-AllTyped envs is_item id ((pred, target) ∷ edges) d (here, rest) h =
      apply_edges-AllTyped (λ n. envs (n + 2)) is_item id edges _ rest
        (add_relation-AllTyped predicates classes ((envs 0).uuid 0) ((envs 0).now 0) id target pred
          d.relations here h)

  withdraw_edges-AllTyped :
      (envs : ℕ → Env) (is_item : Bool) (id : String) (edges : Edges) (d : Stores)
      → AllTyped predicates classes d.relations
      → AllTyped predicates classes
          (withdraw_edges predicates classes envs is_item id edges d).1.relations
  unfolding withdraw_edges
  withdraw_edges-AllTyped envs is_item id [] d h = h
  withdraw_edges-AllTyped envs is_item id ((pred, target) ∷ edges) d h =
      withdraw_edges-AllTyped (λ n. envs (suc n)) is_item id edges _
        (remove_relation-AllTyped predicates classes id target pred d.relations h)

  write_update-AllTyped :
      (envs : ℕ → Env) (req : UpdateRequest) (is_item : Bool) (add_edges del_edges : Edges)
      (d : Stores)
      → Allowed predicates classes (text_of (type_from_id classes req.id)) add_edges
      → AllTyped predicates classes d.relations
      → AllTyped predicates classes
          (write_update predicates classes envs req is_item add_edges del_edges d).1.relations
  unfolding write_update
  write_update-AllTyped envs req is_item add_edges del_edges d allowed h =
      elim (Result-cases (write_fields envs req d.store).0) [
        | inl (a, written) ↦
            rw (written, write_update)
              (withdraw_edges-AllTyped (λ n. envs (n + 6 + 2 * length add_edges)) is_item req.id
                del_edges _
                (apply_edges-AllTyped (λ n. envs (n + 6)) is_item req.id add_edges _ allowed h))
        | inr (x, refused) ↦ rw (refused, write_update) h
      ]

  validate_update-Allowed :
      (req : UpdateRequest) (is_item : Bool) (edges : Edges × Edges)
      → validate_update predicates classes req is_item ≡ ok edges
      → Allowed predicates classes (text_of (type_from_id classes req.id)) edges.0
  unfolding validate_update
  validate_update-Allowed req is_item edges h =
      let source_type = text_of (type_from_id classes req.id) in
      elim (Result-cases (check_subject predicates classes req is_item)) [
        | inr (x, refused) ↦ absurd (ground arith)
        | inl (a, passed) ↦
            elim (Result-cases
              (parse_and_validate predicates classes req.relate source_type (some req.id))) [
                | inr (x, refused) ↦ absurd (ground arith)
                | inl (added, parsed) ↦
                    let e : edges.0 ≡ added = ground arith in
                    rw e (
                      parse_and_validate-Allowed predicates classes req.relate source_type
                        (some req.id) added parsed)
              ]
      ]

  -- Where every row of the relations is one that the vocabulary in force allows between the types
  -- of its ids, every row is after an update, whatever the update asks for and whether or not it is
  -- refused.
  pub handle_update_typed-AllTyped :
      (envs : ℕ → Env) (req : UpdateRequest) (d : Stores)
      → AllTyped predicates classes d.relations
      → AllTyped predicates classes (handle_update_typed predicates classes envs req d).1.relations
  unfolding handle_update_typed
  handle_update_typed-AllTyped envs req d h =
      elim (Result-cases
        (validate_update predicates classes req (is_ok (get_item d.store req.id)))) [
          | inr (x, refused) ↦ rw (refused, handle_update_typed) h
          | inl (edges, valid) ↦
              rw (valid, handle_update_typed)
                (write_update-AllTyped envs req (is_ok (get_item d.store req.id)) edges.0 edges.1 d
                  (validate_update-Allowed req (is_ok (get_item d.store req.id)) edges valid) h)
        ]
