-- ===== src/Crud/Rows/Laws.antt =====
-- The rows as a map from ids to items: how a change of one row shows to clients.
use arrow_kanban.Prelude.{
  fun_ext, ap, sym, ◌∙◌, eq_refl, String, ◌≡◌, refl, Option, none, some, ◌⊎◌, inl, inr, List, [],
  ◌∷◌, arith, ◌==◌, eq_iff, if◌then◌else◌, Bool-cases, Option-cases, Result, ok, err,
}
use arrow_kanban.Crud.{Item, Run, KanbanStore, CrudError, not_found, ◌>>◌}
use arrow_kanban.Crud.Rows.{find_item, update_item, live, get_item, modify}

-- A change of a row that is not its id and does not delete it.
pub record Keeps (f : Item → Item) : Type 0 where
  pub same_id : (row : Item) → (f row).id ≡ row.id
  pub same_deleted : (row : Item) → (f row).deleted ≡ row.deleted

pub find_item-update_item :
    (id j : String) (f : Item → Item) (rows : List Item)
    → Keeps f
    → find_item j (update_item id f rows) ≡ (
        if id == j
        then (elim (find_item j rows) [ some row ↦ some (f row) | none ↦ none ])
        else find_item j rows)
unfolding find_item update_item
find_item-update_item id j f [] k = ground arith
find_item-update_item id j f (row ∷ rows) k = ground (
  arith,
  find_item-update_item id j f rows k,
  k.same_id row,
  k.same_deleted row,
  eq_iff row.id id,
  eq_iff row.id j,
  eq_iff id j,
)

-- What a change of the row of one id shows under each id.
abbrev pub changed : {A : Type 0} → (A → A) → Option A → Option A
changed f none = none
changed f (some a) = some (f a)

-- `modify` fails with `not_found` and changes nothing where the id has no live row. Elsewhere it
-- changes what stands under that id, and under no other.
pub live-modify :
    (id j : String) (f : Item → Item) (s : KanbanStore)
    → Keeps f
    → live (modify id f s).1 j ≡ (if id == j then changed f (live s j) else live s j)
unfolding modify get_item live
live-modify id j f s k = ground (arith, find_item-update_item id j f s.items k, eq_iff id j)

pub modify-ok :
    (id : String) (f : Item → Item) (s : KanbanStore) (row : Item)
    → live s id ≡ some row
    → modify id f s ≡ (ok tt, record s { items = update_item id f s.items })
unfolding modify get_item
modify-ok id f s row h = ground arith

pub modify-absent :
    (id : String) (f : Item → Item) (s : KanbanStore)
    → live s id ≡ none
    → modify id f s ≡ (err (not_found id), s)
unfolding modify get_item
modify-absent id f s h = ground arith

-- Two changes of one row are one.
pub update_item_twice :
    (id : String) (f g : Item → Item) (rows : List Item)
    → Keeps f
    → update_item id g (update_item id f rows) ≡ update_item id (λ row. g (f row)) rows
unfolding update_item
update_item_twice id f g [] k = refl
update_item_twice id f g (row ∷ rows) k =
    ground (arith, update_item_twice id f g rows k, k.same_id row, k.same_deleted row)

-- Two `modify`s of one id in sequence are one.
pub modify_twice :
    (id : String) (f g : Item → Item) (s : KanbanStore)
    → Keeps f
    → (modify id f >> modify id g) s ≡ modify id (λ row. g (f row)) s
modify_twice id f g s k = elim (Option-cases (live s id)) [
  | inl absent ↦
      rw (modify-absent id f s absent) (sym (modify-absent id (λ row. g (f row)) s absent))
  | inr (row, h) ↦
      let first = modify-ok id f s row h in
      let s' = record s { items = update_item id f s.items } in
      let here : live s' id ≡ some (f row) =
        ap (λ (p : Result CrudError Unit × KanbanStore). live p.1 id) (sym first)
        ∙ live-modify id id f s k
        ∙ rw (eq_refl id, h) refl in
      rw first (
        modify-ok id g s' (f row) here
        ∙ rw (update_item_twice id f g s.items k) (sym (modify-ok id (λ row. g (f row)) s row h)))
]

-- The same as an equation of actions, to rewrite by.
pub modify-seq :
    (id : String) (f g : Item → Item)
    → Keeps f
    → (modify id f >> modify id g) ≡ modify id (λ row. g (f row))
modify-seq id f g k = fun_ext (λ s. modify_twice id f g s k)

pub modify-runs :
    (id : String) (f : Item → Item) (s : KanbanStore) → (modify id f s).1.runs ≡ s.runs
unfolding modify get_item
modify-runs id f s = ground arith

pub modify-comments :
    (id : String) (f : Item → Item) (s : KanbanStore) → (modify id f s).1.comments ≡ s.comments
unfolding modify get_item
modify-comments id f s = ground arith

-- The store `s` with `f` applied to the live row of an id, and other runs.
abbrev pub after : String → KanbanStore → (Item → Item) → List Run → KanbanStore
after id s f rs = record { items = update_item id f s.items; runs = rs; comments = s.comments }

module _ (id : String) (s : KanbanStore) (row : Item) (h : live s id ≡ some row) where
  pub live-after :
      (f : Item → Item) (rs : List Run) → Keeps f → live (after id s f rs) id ≡ some (f row)
  unfolding live
  live-after f rs k = ground (arith, find_item-update_item id id f s.items k, eq_refl id)

  -- One more change of the row.
  pub modify-after :
      (f g : Item → Item) (rs : List Run)
      → Keeps f
      → modify id g (after id s f rs) ≡ (ok tt, after id s (λ r. g (f r)) rs)
  modify-after f g rs k =
      modify-ok id g (after id s f rs) (f row) (live-after f rs k)
      ∙ ap
          (λ (rows : List Item). (ok tt, record { items = rows; runs = rs; comments = s.comments }))
          (update_item_twice id f g s.items k)

-- Another id shows what it showed.
pub live-after_other :
    (id j : String) (s : KanbanStore) (f : Item → Item) (rs : List Run)
    → Keeps f
    → (id ≡ j) ⊎ (live (after id s f rs) j ≡ live s j)
unfolding live
live-after_other id j s f rs k = elim (Bool-cases (id == j)) [
  | inl same ↦ inl ((eq_iff id j).0 same)
  | inr other ↦ inr (ground (arith, find_item-update_item id j f s.items k))
]
