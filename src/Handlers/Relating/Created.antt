-- ===== src/Handlers/Relating/Created.antt =====
-- server/src/handlers/core.rs: the typed edges of a new item.
use Prim.Native.Char.{code}
use text.Mathlib.TextLemmas.{cons-append, nil-append}
use arrow_kanban.Prelude.{
  ℕ, suc, String, ◌≡◌, refl, Bool, true, not, ◌&&◌, eqb, arith, ◌<>◌, none, some, List, [], ◌∷◌, ok,
  err, Result-cases, Option-cases, inl, inr, any-append, eq_refl, is_ok, Option,
}
use arrow_kanban.IdAlloc.{allocate_id, next_number}
use arrow_kanban.Prelude.Decimal.{show}
use arrow_kanban.ItemType.{ItemType, as_str, prefix, from_str_loose}
use arrow_kanban.Crud.{Env}
use arrow_kanban.Crud.Create.{create_item, insert_row, push_item, ids_of}
use arrow_kanban.Crud.Status.{record_run}
use arrow_kanban.Relations.{RelationsStore, is_edge, add_relation, has_relation}
use arrow_kanban.Events.Effects.{Stores}
use arrow_kanban.RelationVocab.{
  Predicate, EntityClass, before_dash, codes, upper_eq, first_prefix, compiled_prefixes,
  type_from_id, text_of, parse_spec, validate_edge,
}
use arrow_kanban.Handlers.{Refusal}
use arrow_kanban.Handlers.Relating.{
  Edges, CreateRequest, CreateResponse, source_or_new, record_edges, parse_and_validate,
  write_create, handle_create_typed,
}
use arrow_kanban.Handlers.Relating.Allowed.{
  Allowed, AllTyped, add_relation-AllTyped, parse_and_validate-Allowed,
}

abbrev has_no_dash : String → Bool
has_no_dash String.[] = true
has_no_dash (String.◌∷◌ c s) = not (eqb (code c) 45) && has_no_dash s

before_dash-append : (p rest : String) → has_no_dash p ≡ true → before_dash (p <> "-" <> rest) ≡ p
unfolding before_dash
before_dash-append String.[] rest h = rw (nil-append, cons-append) refl
before_dash-append (String.◌∷◌ c p) rest h =
    rw cons-append (ground (arith, before_dash-append p rest))

prefix_undashed : (t : ItemType) → has_no_dash (prefix t) ≡ true
unfolding prefix
prefix_undashed ItemType.expedition = refl
prefix_undashed ItemType.chore = refl
prefix_undashed ItemType.voyage = refl
prefix_undashed ItemType.campaign = refl
prefix_undashed ItemType.hazard = refl
prefix_undashed ItemType.signal = refl
prefix_undashed ItemType.feature = refl
prefix_undashed ItemType.paper = refl
prefix_undashed ItemType.hypothesis = refl
prefix_undashed ItemType.experiment = refl
prefix_undashed ItemType.measure = refl
prefix_undashed ItemType.idea = refl
prefix_undashed ItemType.literature = refl

first_prefix-prefix : (t : ItemType) → first_prefix (prefix t) compiled_prefixes ≡ some (as_str t)
unfolding prefix as_str upper_eq codes
first_prefix-prefix ItemType.expedition = refl
first_prefix-prefix ItemType.chore = refl
first_prefix-prefix ItemType.voyage = refl
first_prefix-prefix ItemType.campaign = refl
first_prefix-prefix ItemType.hazard = refl
first_prefix-prefix ItemType.signal = refl
first_prefix-prefix ItemType.feature = refl
first_prefix-prefix ItemType.paper = refl
first_prefix-prefix ItemType.hypothesis = refl
first_prefix-prefix ItemType.experiment = refl
first_prefix-prefix ItemType.measure = refl
first_prefix-prefix ItemType.idea = refl
first_prefix-prefix ItemType.literature = refl

-- The id that is allocated for an item has the type of the item by its prefix, whatever classes
-- the vocabulary has.
pub type_from_id-allocate_id :
    (classes : List EntityClass) (ids : List String) (t : ItemType)
    → type_from_id classes (allocate_id ids t) ≡ some (as_str t)
unfolding type_from_id allocate_id
type_from_id-allocate_id classes ids t = ground (
  arith,
  before_dash-append (prefix t) (show (next_number ids)) (prefix_undashed t),
  first_prefix-prefix t,
)

module _ (predicates : List Predicate) (classes : List EntityClass) where
  record_edges-AllTyped :
      (envs : ℕ → Env) (id : String) (edges : Edges) (rows : RelationsStore)
      → Allowed predicates classes (text_of (type_from_id classes id)) edges
      → AllTyped predicates classes rows
      → AllTyped predicates classes (record_edges envs id edges rows)
  unfolding record_edges
  record_edges-AllTyped envs id [] rows allowed h = h
  record_edges-AllTyped envs id ((pred, target) ∷ edges) rows (here, rest) h =
      record_edges-AllTyped (λ n. envs (suc n)) id edges _ rest
        (add_relation-AllTyped predicates classes ((envs 0).uuid 0) ((envs 0).now 0) id target pred
          rows here h)

  write_create_ok :
      (envs : ℕ → Env) (req : CreateRequest) (t : ItemType) (edges : Edges) (d : Stores)
      → (write_create predicates classes envs req t edges d).1.relations
        ≡ record_edges (λ n. envs (suc n)) (allocate_id (ids_of d.store) t) edges d.relations
  unfolding write_create create_item insert_row push_item record_run
  write_create_ok envs req t edges d = ground arith

  write_create-replies :
      (envs : ℕ → Env) (req : CreateRequest) (t : ItemType) (edges : Edges) (d : Stores)
      → (r : CreateResponse) × ((write_create predicates classes envs req t edges d).0 ≡ ok r)
  unfolding write_create create_item insert_row push_item record_run
  write_create-replies envs req t edges d = (_, refl)

  write_create-AllTyped :
      (envs : ℕ → Env) (req : CreateRequest) (t : ItemType) (edges : Edges) (d : Stores)
      → Allowed predicates classes (as_str t) edges
      → AllTyped predicates classes d.relations
      → AllTyped predicates classes (write_create predicates classes envs req t edges d).1.relations
  write_create-AllTyped envs req t edges d allowed h = rw (write_create_ok envs req t edges d) (
      record_edges-AllTyped (λ n. envs (suc n)) (allocate_id (ids_of d.store) t) edges d.relations
        (rw (type_from_id-allocate_id classes (ids_of d.store) t) allowed) h)

  -- Where every row of the relations is one that the vocabulary in force allows between the types
  -- of its ids, every row is after a create, refused or not. A create that is refused has changed
  -- neither the items nor the relations.
  pub handle_create_typed-AllTyped :
      (envs : ℕ → Env) (req : CreateRequest) (d : Stores)
      → AllTyped predicates classes d.relations
      → let (done, after) = handle_create_typed predicates classes envs req d in
        AllTyped predicates classes after.relations × ((x : Refusal) → done ≡ err x → after ≡ d)
  unfolding handle_create_typed
  handle_create_typed-AllTyped envs req d h = elim (Option-cases (from_str_loose req.item_type)) [
    | inl unknown ↦ rw (unknown, handle_create_typed) (h, λ x e. refl)
    | inr (t, known) ↦
        elim (Result-cases (parse_and_validate predicates classes req.relate (as_str t) none)) [
          | inr (x, refused) ↦ rw (known, refused, handle_create_typed) (h, λ x e. refl)
          | inl (edges, valid) ↦
              rw (known, valid, handle_create_typed)
                (
                  write_create-AllTyped envs req t edges d
                      (parse_and_validate-Allowed predicates classes req.relate (as_str t) none
                        edges valid)
                      h,
                  λ x e.
                      let (r, replied) = write_create-replies envs req t edges d in
                      absurd (ground arith),
                )
        ]
  ]

  parse_and_validate-one :
      (spec name target source_type : String) (source_id : Option String) (p : Predicate)
      → parse_spec spec ≡ some (name, target)
      → validate_edge predicates name
          (source_or_new source_id)
          source_type
          target
          (type_from_id classes target)
        ≡ ok p
      → parse_and_validate predicates classes (spec ∷ []) source_type source_id
        ≡ ok ((p.name, target) ∷ [])
  unfolding parse_and_validate
  parse_and_validate-one spec name target source_type source_id p split valid = ground arith

  record_edges-has :
      (envs : ℕ → Env) (id target pred : String) (rows : RelationsStore)
      → has_relation (record_edges envs id ((pred, target) ∷ []) rows) id target pred ≡ true
  unfolding record_edges add_relation has_relation
  record_edges-has envs id target pred rows = ground (
    arith,
    any-append (is_edge id target pred) rows
        ((add_relation ((envs 0).uuid 0) ((envs 0).now 0) id target pred []).1),
    eq_refl id,
    eq_refl target,
    eq_refl pred,
  )

  -- A create whose edge points at the id that the item is about to get, and which the vocabulary
  -- allows from a new item, is granted, and records an edge of the item to itself.
  pub handle_create_typed_to_self :
      (envs : ℕ → Env) (req : CreateRequest) (d : Stores) (t : ItemType) (spec name : String)
      (p : Predicate)
      → from_str_loose req.item_type ≡ some t
      → req.relate ≡ spec ∷ []
      → parse_spec spec ≡ some (name, allocate_id (ids_of d.store) t)
      → validate_edge predicates name "<new>"
          (as_str t)
          (allocate_id (ids_of d.store) t)
          (type_from_id classes (allocate_id (ids_of d.store) t))
        ≡ ok p
      → let (done, after) = handle_create_typed predicates classes envs req d in
        let id = allocate_id (ids_of d.store) t in
        (is_ok done ≡ true) × (has_relation after.relations id id p.name ≡ true)
  unfolding handle_create_typed
  handle_create_typed_to_self envs req d t spec name p known one split valid =
      let id = allocate_id (ids_of d.store) t in
      let edges : parse_and_validate predicates classes req.relate (as_str t) none
          ≡ ok ((p.name, id) ∷ []) =
        rw one (parse_and_validate-one spec name id (as_str t) none p split valid) in
      let (r, replied) = write_create-replies envs req t ((p.name, id) ∷ []) d in
      (
        ground arith,
        rw (known, edges, handle_create_typed, write_create_ok envs req t ((p.name, id) ∷ []) d)
            (record_edges-has (λ n. envs (suc n)) id id p.name d.relations),
      )
