-- ===== src/IdAlloc/Fresh.antt =====
-- src/id_alloc.rs: the id that is allocated next, beside those in use.
use arrow_kanban.Prelude.{
  ℕ, zero, ◌+◌, ◌≤◌, ◌<◌, String, ◌≡◌, refl, ap, ◌∙◌, Bool, true, false, ◌||◌, inl, inr, some, List,
  [], ◌∷◌, arith, contains, ◌==◌, ◌<>◌, eq_iff, Bool-cases,
}
use arrow_kanban.Prelude.Decimal.{show}
use arrow_kanban.ItemType.{ItemType, expedition, dev, research, prefix, all_prefixes}
use arrow_kanban.IdAlloc.{
  u32_bound, number_of, raise_to, max_id_from, max_id_for_prefix, global_id_base, max_over_prefixes,
  max_over_types, global_max_id, next_number, allocate_id,
}
use arrow_kanban.IdAlloc.Digits.{number_of-format}

-- The loops only raise their maximum.
le-max_id_from : (m : ℕ) (p : String) (ids : List String) → m ≤ max_id_from m p ids
unfolding max_id_from
le-max_id_from m p [] = omega arith
le-max_id_from m p (id ∷ ids) = ground (arith, le-max_id_from (raise_to m (number_of p id)) p ids)

-- The number of each id with the prefix is at most the maximum for the prefix.
number-le-max_id_from :
    (m : ℕ) (p : String) (ids : List String) (id : String) (n : ℕ)
    → contains ids id ≡ true
    → number_of p id ≡ some n
    → n ≤ max_id_from m p ids
unfolding max_id_from
number-le-max_id_from m p [] id n h e = cc
number-le-max_id_from m p (x ∷ ids) id n h e = elim (Bool-cases (x == id)) [
  | inl same ↦
      let here : number_of p x ≡ some n = ap (number_of p) ((eq_iff x id).0 same) ∙ e in
      ground (arith, here, le-max_id_from (raise_to m (number_of p x)) p ids)
  | inr other ↦ number-le-max_id_from (raise_to m (number_of p x)) p ids id n (ground arith) e
]

le-max_over_prefixes :
    (ids : List String) (m : ℕ) (ps : List String) → m ≤ max_over_prefixes ids m ps
unfolding max_over_prefixes
le-max_over_prefixes ids m [] = omega arith
le-max_over_prefixes ids m (p ∷ ps) =
    ground (arith, le-max_over_prefixes ids (raise_to m (some (max_id_for_prefix ids p))) ps)

max_id-le-max_over_prefixes :
    (ids : List String) (m : ℕ) (ps : List String) (p : String)
    → contains ps p ≡ true
    → max_id_for_prefix ids p ≤ max_over_prefixes ids m ps
unfolding max_over_prefixes
max_id-le-max_over_prefixes ids m [] p h = cc
max_id-le-max_over_prefixes ids m (x ∷ ps) p h = elim (Bool-cases (x == p)) [
  | inl same ↦
      let here : max_id_for_prefix ids x ≡ max_id_for_prefix ids p =
        ap (max_id_for_prefix ids) ((eq_iff x p).0 same) in
      ground
        (arith, here, le-max_over_prefixes ids (raise_to m (some (max_id_for_prefix ids x))) ps)
  | inr other ↦
      max_id-le-max_over_prefixes ids (raise_to m (some (max_id_for_prefix ids x))) ps p
        (ground arith)
]

le-max_over_types : (ids : List String) (m : ℕ) (ts : List ItemType) → m ≤ max_over_types ids m ts
unfolding max_over_types
le-max_over_types ids m [] = omega arith
le-max_over_types ids m (t ∷ ts) = omega (
  arith,
  le-max_over_prefixes ids m (all_prefixes t),
  le-max_over_types ids (max_over_prefixes ids m (all_prefixes t)) ts,
)

-- One of the types has this prefix.
abbrev pub known : List ItemType → String → Bool
known [] p = false
known (t ∷ ts) p = contains (all_prefixes t) p || known ts p

max_id-le-max_over_types :
    (ids : List String) (m : ℕ) (ts : List ItemType) (p : String)
    → known ts p ≡ true
    → max_id_for_prefix ids p ≤ max_over_types ids m ts
unfolding max_over_types
max_id-le-max_over_types ids m [] p h = cc
max_id-le-max_over_types ids m (t ∷ ts) p h = elim (Bool-cases (contains (all_prefixes t) p)) [
  | inl here ↦ omega (
    arith,
    max_id-le-max_over_prefixes ids m (all_prefixes t) p here,
    le-max_over_types ids (max_over_prefixes ids m (all_prefixes t)) ts,
  )
  | inr other ↦
      max_id-le-max_over_types ids (max_over_prefixes ids m (all_prefixes t)) ts p (ground arith)
]

max_id-le-global :
    (ids : List String) (p : String)
    → (known dev p || known research p) ≡ true
    → max_id_for_prefix ids p ≤ global_max_id ids
unfolding global_max_id
max_id-le-global ids p h = elim (Bool-cases (known dev p)) [
  | inl d ↦ omega (
    arith,
    max_id-le-max_over_types ids zero dev p d,
    le-max_over_types ids (max_over_types ids zero dev) research,
  )
  | inr other ↦ max_id-le-max_over_types ids (max_over_types ids zero dev) research p (ground arith)
]

prefix-known : (t : ItemType) → (known dev (prefix t) || known research (prefix t)) ≡ true
unfolding all_prefixes
prefix-known expedition = refl
prefix-known _ = refl

-- The number of an id under any known prefix is below the next number, while the counter does not
-- wrap.
pub number-lt-next_number :
    (ids : List String) (p id : String) (n : ℕ)
    → (known dev p || known research p) ≡ true
    → contains ids id ≡ true
    → number_of (p <> "-") id ≡ some n
    → global_max_id ids + 1 < u32_bound
    → n < next_number ids
unfolding next_number max_id_for_prefix
number-lt-next_number ids p id n k h e b =
    ground (arith, max_id-le-global ids p k, number-le-max_id_from zero (p <> "-") ids id n h e)

next_number_bounds :
    (ids : List String)
    → global_max_id ids + 1 < u32_bound
    → (global_id_base < next_number ids) × (next_number ids < u32_bound)
unfolding next_number
next_number_bounds ids b = ground arith

-- While the counter stays in the range of a u32, an allocated id is the id of no row, deleted ones
-- included, and its number is above 1299.
pub allocate_id-fresh :
    (ids : List String) (t : ItemType)
    → global_max_id ids + 1 < u32_bound
    → (contains ids (allocate_id ids t) ≡ false) × (global_id_base < next_number ids)
unfolding allocate_id
allocate_id-fresh ids t b =
    elim (Bool-cases (contains ids (prefix t <> "-" <> show (next_number ids)))) [
      | inl taken ↦
          let (low, high) = next_number_bounds ids b in
          absurd (
            omega (
              arith,
              number-lt-next_number ids (prefix t) (prefix t <> "-" <> show (next_number ids))
                  (next_number ids) (prefix-known t) taken
                  (number_of-format (prefix t) (next_number ids) high) b,
            ))
      | inr free ↦ (free, (next_number_bounds ids b).0)
    ]
