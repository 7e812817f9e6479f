-- ===== src/Events/Replay.antt =====
-- server/src/events.rs: what a second replay of an event does, as a load makes it where the manifest
-- trails the checkpoint.
use arrow_kanban.Prelude.{
  ℕ, suc, ◌≤◌, String, ◌≡◌, refl, ap, ◌∙◌, true, false, Option, none, some, inl, inr, List, [], ◌∷◌,
  arith, eq_refl, any, any-append, ok, is_ok, Bool-cases, Option-cases,
}
use arrow_kanban.ItemType.{from_str_loose}
use arrow_kanban.Crud.{Item, KanbanStore, Env}
use arrow_kanban.Crud.Rows.{find_item, update_item, live, get_item, modify}
use arrow_kanban.Crud.Status.{delete_item}
use arrow_kanban.Crud.Create.{create_item_with_id, new_row}
use arrow_kanban.Crud.Create.Laws.{create_item_with_id-IsCreated}
use arrow_kanban.Crud.Calls.Keeping.{live_count, IsUnique}
use arrow_kanban.Crud.Comments.{has_comment, author_of, has_comment-add_comment}
use arrow_kanban.Relations.{add_relation, has_relation, is_edge}
use arrow_kanban.Events.{CreatedEvent, MutationEvent}
use arrow_kanban.Events.Effects.{
  Stores, parse_relationship_specs, add_edge, add_edges, input_of, replay_created, replay_deleted,
  replay_commented, replay_relation_added, replay_into,
}

add_edges-keeps :
    (envs : ℕ → Env) (id : String) (edges : List (String × String)) (d : Stores)
    → ((add_edges envs id edges d).0 ≡ ok tt) × ((add_edges envs id edges d).1.store ≡ d.store)
unfolding add_edges add_edge
add_edges-keeps envs id [] d = (refl, refl)
add_edges-keeps envs id ((predicate, target) ∷ edges) d =
    add_edges-keeps (λ n. envs (suc n)) id edges
      (record d {
        relations =
            (add_relation ((envs 0).uuid 0) ((envs 0).now 0) id target predicate d.relations).1;
      })

is_ok-get_item :
    (s : KanbanStore) (id : String) (row : Item)
    → live s id ≡ some row
    → is_ok (get_item s id) ≡ true
unfolding get_item
is_ok-get_item s id row h = ground arith

live_of_is_ok : (s : KanbanStore) (id : String) → is_ok (get_item s id) ≡ false → live s id ≡ none
unfolding get_item
live_of_is_ok s id h = ground arith

module _ (lookup : String → Option String) (envs : ℕ → Env) where
  -- A creation that is replayed leaves its item.
  replay_created-present :
      (e : CreatedEvent) (d : Stores)
      → (replay_created lookup envs e d).0 ≡ ok tt
      → is_ok (get_item (replay_created lookup envs e d).1.store e.id) ≡ true
  unfolding replay_created
  replay_created-present e d h = elim (Bool-cases (is_ok (get_item d.store e.id))) [
    | inl there ↦ ground (arith, there)
    | inr gone ↦ elim (Option-cases (from_str_loose e.item_type)) [
      | inl unknown ↦ absurd (ground arith)
      | inr (t, known) ↦
          let input = input_of lookup e t in
          let made =
            create_item_with_id-IsCreated (envs 0) e.id input d.store
              (live_of_is_ok d.store e.id gone) in
          let d' : Stores = record d {
            store = (create_item_with_id (envs 0) e.id input d.store).1;
          } in
          let edges = parse_relationship_specs e.relationships in
          let same : replay_created lookup envs e d ≡ add_edges (λ n. envs (suc n)) e.id edges d' =
            ground (arith, made.0) in
          let kept = add_edges-keeps (λ n. envs (suc n)) e.id edges d' in
          rw same (
            ap (λ s. is_ok (get_item s e.id)) kept.1
            ∙ is_ok-get_item d'.store e.id (new_row (envs 0) e.id input) made.1.row_of)
    ]
  ]

  replay_commented-present :
      (id text : String) (agent : Option String) (d : Stores)
      → (replay_commented lookup envs id text agent d).0 ≡ ok tt
      → has_comment (replay_commented lookup envs id text agent d).1.store id (author_of agent) text
        ≡ true
  unfolding replay_commented
  replay_commented-present id text agent d h =
      elim (Bool-cases (has_comment d.store id (author_of agent) text)) [
        | inl there ↦ ground (arith, there)
        | inr new_text ↦ elim (has_comment-add_comment (envs 0) d.store id text agent) [
          | inl (gone, fails) ↦ absurd (ground (arith, fails))
          | inr added ↦ ground (arith, added)
        ]
      ]

  replay_relation_added-present :
      (source target predicate : String) (d : Stores)
      → has_relation
          (replay_relation_added lookup envs source target predicate d).1.relations
          source
          target
          predicate
        ≡ true
  unfolding replay_relation_added add_edge add_relation has_relation
  replay_relation_added-present source target predicate d =
      elim (Bool-cases (any (is_edge source target predicate) d.relations)) [
        | inl there ↦ ground (arith, there)
        | inr fresh_edge ↦ ground (
          arith,
          any-append (is_edge source target predicate) d.relations
              (add_relation ((envs 0).uuid 0) ((envs 0).now 0) source target predicate []).1,
          eq_refl source,
          eq_refl target,
          eq_refl predicate,
        )
      ]

-- A deletion leaves no live row of its id where there was at most one.
find_item-none :
    (id : String) (rows : List Item) → live_count id rows ≡ 0 → find_item id rows ≡ none
unfolding find_item
find_item-none id [] h = refl
find_item-none id (row ∷ rows) h = ground (arith, find_item-none id rows)

find_item-delete :
    (id : String) (rows : List Item)
    → live_count id rows ≤ 1
    → find_item id (update_item id (λ row. record row { deleted = true }) rows) ≡ none
unfolding find_item update_item
find_item-delete id [] h = refl
find_item-delete id (row ∷ rows) h =
    ground (arith, find_item-delete id rows, find_item-none id rows)

-- The kinds of events whose replay looks first whether it was made.
abbrev pub Guarded : {Payload : Type 0} → MutationEvent Payload → Type 0
Guarded (MutationEvent.created e) = Unit
Guarded (MutationEvent.deleted e) = Unit
Guarded (MutationEvent.commented e) = Unit
Guarded (MutationEvent.relation_added e) = Unit
Guarded _ = ⊥

module _ (lookup : String → Option String) (envs : ℕ → Env) (t : Stores) where
  created_again :
      (e : CreatedEvent)
      → is_ok (get_item t.store e.id) ≡ true
      → replay_created lookup envs e t ≡ (ok tt, t)
  unfolding replay_created
  created_again e there = ground arith

  deleted_again :
      (id : String)
      → is_ok (get_item t.store id) ≡ false
      → replay_deleted lookup envs id t ≡ (ok tt, t)
  unfolding replay_deleted
  deleted_again id gone = ground arith

  commented_again :
      (id text : String) (agent : Option String)
      → has_comment t.store id (author_of agent) text ≡ true
      → replay_commented lookup envs id text agent t ≡ (ok tt, t)
  unfolding replay_commented
  commented_again id text agent there = ground arith

  related_again :
      (source target predicate : String)
      → has_relation t.relations source target predicate ≡ true
      → replay_relation_added lookup envs source target predicate t ≡ (ok tt, t)
  unfolding replay_relation_added
  related_again source target predicate there = ground arith

  replay_deleted-gone :
      (id : String)
      → IsUnique t.store
      → is_ok (get_item (replay_deleted lookup envs id t).1.store id) ≡ false
  unfolding replay_deleted delete_item modify get_item live
  replay_deleted-gone id u = ground (arith, find_item-delete id t.store.items (u id))

module _ (lookup : String → Option String) (envs envs' : ℕ → Env) (d : Stores) where
  -- Replaying a creation, a deletion, a comment or an added relation a second time, when the first
  -- succeeded, changes nothing, where no id has two live rows.
  pub replay_into-twice :
      {Payload : Type 0} (ev : MutationEvent Payload)
      → Guarded ev
      → IsUnique d.store
      → (replay_into lookup envs ev d).0 ≡ ok tt
      → let t = (replay_into lookup envs ev d).1 in replay_into lookup envs' ev t ≡ (ok tt, t)
  unfolding replay_into
  replay_into-twice (MutationEvent.created e) g u h =
      created_again lookup envs' (replay_created lookup envs e d).1 e
        (replay_created-present lookup envs e d h)
  replay_into-twice (MutationEvent.deleted e) g u h =
      deleted_again lookup envs' (replay_deleted lookup envs e.id d).1 e.id
        (replay_deleted-gone lookup envs d e.id u)
  replay_into-twice (MutationEvent.commented e) g u h =
      commented_again lookup envs' (replay_commented lookup envs e.id e.text e.agent d).1 e.id
        e.text e.agent (replay_commented-present lookup envs e.id e.text e.agent d h)
  replay_into-twice (MutationEvent.relation_added e) g u h =
      related_again lookup envs'
        (replay_relation_added lookup envs e.source e.target e.predicate d).1 e.source e.target
        e.predicate (replay_relation_added-present lookup envs e.source e.target e.predicate d)
  replay_into-twice _ g u h = absurd g
