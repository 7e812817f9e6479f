-- ===== src/CriticalPath/Edges.antt =====
-- src/critical_path.rs: the keys and the edges of the graph that is built.
use arrow_kanban.Prelude.{
  ◌+◌, ◌≤◌, ◌≡◌, ◌≢◌, ◌⊎◌, refl, ap, ◌∙◌, String, Bool, true, false, not, ◌&&◌, ◌||◌, List, [], ◌∷◌,
  ◌==◌, arith, eq_iff, eq_refl, any, any-append, contains, length, length-append, Bool-cases, inl,
  inr,
}
use arrow_kanban.CriticalPath.{ItemInfo, Edge, Graph, ids_of, add_key, add_dependencies, add_items}
use arrow_kanban.CriticalPath.Degrees.{contains-append}
use arrow_kanban.CriticalPath.Rounds.{missing}

-- An edge of a list of edges.
abbrev pub has_edge : String → String → List Edge → Bool
has_edge s t = any (λ (e : Edge). e.0 == s && e.1 == t)

-- The dependencies of an active item are edges of the graph.
add_dependencies-keeps_edge :
    (active deps : List String) (id s t : String) (g : Graph)
    → has_edge s t g.edges ≡ true
    → has_edge s t (add_dependencies active id deps g).edges ≡ true
unfolding add_dependencies
add_dependencies-keeps_edge active [] id s t g h = h
add_dependencies-keeps_edge active (dep ∷ deps) id s t g h =
    add_dependencies-keeps_edge active deps id s t _
      (ground (arith, any-append (λ (e : Edge). e.0 == s && e.1 == t) g.edges ((dep, id) ∷ [])))

add_dependencies-edge :
    (active deps : List String) (id s : String) (g : Graph)
    → contains active s ≡ true
    → contains deps s ≡ true
    → has_edge s id (add_dependencies active id deps g).edges ≡ true
unfolding add_dependencies
add_dependencies-edge active [] id s g a h = cc
add_dependencies-edge active (dep ∷ deps) id s g a h = elim (Bool-cases (dep == s)) [
  | inl same ↦
      let e : dep ≡ s = (eq_iff dep s).0 same in
      let on : contains active dep ≡ true = rw e a in
      add_dependencies-keeps_edge active deps id s id _ (
        ground (
          arith,
          any-append (λ (e : Edge). e.0 == s && e.1 == id) g.edges ((dep, id) ∷ []),
          eq_refl id,
        ))
  | inr other ↦ add_dependencies-edge active deps id s _ a (ground arith)
]

add_items-keeps_edge :
    (active : List String) (items : List ItemInfo) (s t : String) (g : Graph)
    → has_edge s t g.edges ≡ true
    → has_edge s t (add_items active items g).edges ≡ true
unfolding add_items add_key
add_items-keeps_edge active [] s t g h = h
add_items-keeps_edge active (i ∷ items) s t g h =
    add_items-keeps_edge active items s t _
      (add_dependencies-keeps_edge active i.depends_on i.id s t _ (ground arith))

-- An item of the list, with this id, depends on `s`.
abbrev pub depends : List ItemInfo → String → String → Bool
depends items t s = any (λ (i : ItemInfo). i.id == t && contains i.depends_on s) items

pub add_items-edge :
    (active : List String) (items : List ItemInfo) (s t : String) (g : Graph)
    → contains active s ≡ true
    → depends items t s ≡ true
    → has_edge s t (add_items active items g).edges ≡ true
unfolding add_items
add_items-edge active [] s t g a h = cc
add_items-edge active (i ∷ items) s t g a h =
    elim (Bool-cases (i.id == t && contains i.depends_on s)) [
      | inl here ↦
          let e : i.id ≡ t = ground (arith, eq_iff i.id t) in
          let on : contains i.depends_on s ≡ true = ground arith in
          add_items-keeps_edge active items s t _
            (rw (← e) (add_dependencies-edge active i.depends_on i.id s (add_key i.id g) a on))
      | inr there ↦ add_items-edge active items s t _ a (ground arith)
    ]

pub missing-edge :
    (es : List Edge) (done : List String) (s t : String)
    → has_edge s t es ≡ true
    → missing es done t ≡ 0
    → contains done s ≡ true
missing-edge [] done s t h m = cc
missing-edge ((a, b) ∷ es) done s t h m = elim (Bool-cases (a == s && b == t)) [
  | inl here ↦ let e : a ≡ s = ground (arith, eq_iff a s) in rw (← e) (ground arith)
  | inr there ↦ missing-edge es done s t (ground arith) (ground arith)
]

-- The keys are the ids of the active items.
pub contains-add_dependencies :
    (active deps : List String) (id : String) (g : Graph)
    → (add_dependencies active id deps g).keys ≡ g.keys
unfolding add_dependencies
contains-add_dependencies active [] id g = refl
contains-add_dependencies active (dep ∷ deps) id g =
    contains-add_dependencies active deps id _ ∙ ground arith

pub contains-add_key :
    (id k : String) (g : Graph) → contains (add_key id g).keys k ≡ (contains g.keys k || id == k)
unfolding add_key
contains-add_key id k g =
    ground (arith, contains-append g.keys (id ∷ []) k, eq_iff id k, ap (contains g.keys))

pub contains-add_items :
    (active : List String) (items : List ItemInfo) (k : String) (g : Graph)
    → contains (add_items active items g).keys k ≡ (contains g.keys k || contains (ids_of items) k)
unfolding add_items
contains-add_items active [] k g = ground arith
contains-add_items active (i ∷ items) k g =
    contains-add_items active items k _
    ∙ ground (
      arith,
      ap (λ l. contains l k) (contains-add_dependencies active i.depends_on i.id (add_key i.id g)),
      contains-add_key i.id k g,
    )

length-add_key : (id : String) (g : Graph) → length (add_key id g).keys ≤ length g.keys + 1
unfolding add_key
length-add_key id g = ground (arith, length-append g.keys (id ∷ []))

pub length-add_items :
    (active : List String) (items : List ItemInfo) (g : Graph)
    → length (add_items active items g).keys ≤ length g.keys + length items
unfolding add_items
length-add_items active [] g = omega arith
length-add_items active (i ∷ items) g = omega (
  arith,
  length-add_items active items (add_dependencies active i.id i.depends_on (add_key i.id g)),
  ap length (contains-add_dependencies active i.depends_on i.id (add_key i.id g)),
  length-add_key i.id g,
)

-- Each edge is a dependency of an item.
add_dependencies_sound :
    (active deps : List String) (id s t : String) (g : Graph)
    → has_edge s t (add_dependencies active id deps g).edges ≡ true
    → (has_edge s t g.edges ≡ true)
      ⊎ ((contains deps s ≡ true) × (contains active s ≡ true) × (id == t ≡ true))
unfolding add_dependencies
add_dependencies_sound active [] id s t g h = inl h
add_dependencies_sound active (dep ∷ deps) id s t g h =
    elim (add_dependencies_sound active deps id s t _ h) [
      | inl before ↦ ground (
        arith,
        before,
        any-append (λ (e : Edge). e.0 == s && e.1 == t) g.edges ((dep, id) ∷ []),
        eq_iff dep s,
        ap (contains active),
      )
      | inr (c, a, e) ↦ inr (ground arith, a, e)
    ]

pub add_items_sound :
    (active : List String) (items : List ItemInfo) (s t : String) (g : Graph)
    → has_edge s t (add_items active items g).edges ≡ true
    → (has_edge s t g.edges ≡ true) ⊎ ((contains active s ≡ true) × (depends items t s ≡ true))
unfolding add_items add_key
add_items_sound active [] s t g h = inl h
add_items_sound active (i ∷ items) s t g h = elim (add_items_sound active items s t _ h) [
  | inl before ↦ elim (add_dependencies_sound active i.depends_on i.id s t _ before) [
    | inl g_has ↦ ground arith
    | inr (c, a, e) ↦ inr (a, ground arith)
  ]
  | inr (a, later) ↦ inr (a, ground arith)
]

-- An item that is waited for, where the count of missing edges is not 0.
pub missing-some :
    (es : List Edge) (done : List String) (t : String)
    → missing es done t ≢ 0
    → (s : String) × (has_edge s t es ≡ true) × (contains done s ≡ false)
missing-some [] done t h = absurd (h refl)
missing-some ((a, b) ∷ es) done t h = elim (Bool-cases (b == t && not (contains done a))) [
  | inl here ↦ (a, ground (arith, eq_refl a), ground arith)
  | inr there ↦ let (s, e, f) = missing-some es done t (rw there at h) in (s, ground arith, f)
]
