-- ===== src/IdAlloc.antt =====
-- src/id_alloc.rs: one counter over all types. A row of the Items table is its id here; deleted rows
-- count too, as the scan reads every row.
pub mod Digits
pub mod Fresh
use Prim.Native.Char.{code}
use arrow_kanban.Prelude.{
  ℕ, zero, ◌+◌, ◌-◌, ◌*◌, ◌%◌, ◌^◌, String, Bool, ◌&&◌, Option, none, some, List, [], ◌∷◌, ltb, leb,
  eqb, ◌==◌, ◌<>◌, if◌then◌else◌, Result, ok, err,
}
use arrow_kanban.Prelude.Decimal.{show}
use arrow_kanban.ItemType.{ItemType, dev, research, prefix, all_prefixes, from_str_loose}

abbrev pub u32_bound : ℕ
u32_bound = 4294967296

abbrev pub is_digit : ℕ → Bool
is_digit c = leb 48 c && leb c 57

-- The digits of `parse::<u32>`, with its overflow test.
unfoldable pub parse_digits : ℕ → String → Option ℕ
parse_digits acc String.[] = some acc
parse_digits acc (String.◌∷◌ c s) =
    let v = acc * 10 + (code c - 48) in
    let rest = parse_digits v s in
    if is_digit (code c) then if ltb v u32_bound then rest else none else none

-- A leading `+` is allowed.
unfoldable pub strip_plus : String → String
strip_plus String.[] = String.[]
strip_plus (String.◌∷◌ c s) = if eqb (code c) 43 then s else String.◌∷◌ c s

-- `parse::<u32>()`
unfoldable pub parse_u32 : String → Option ℕ
unfolding parse_digits strip_plus
parse_u32 s = if strip_plus s == "" then none else parse_digits zero (strip_plus s)

unfoldable pub strip_prefix : String → String → Option String
strip_prefix String.[] s = some s
strip_prefix (String.◌∷◌ c p) String.[] = none
strip_prefix (String.◌∷◌ c p) (String.◌∷◌ d s) =
    let rest = strip_prefix p s in if eqb (code c) (code d) then rest else none

-- `split('.').next()`
unfoldable pub before_dot : String → String
before_dot String.[] = String.[]
before_dot (String.◌∷◌ c s) = if eqb (code c) 46 then String.[] else String.◌∷◌ c (before_dot s)

-- The number of an id with this prefix and its dash.
unfoldable pub number_of : String → String → Option ℕ
unfolding strip_prefix before_dot parse_u32
number_of prefix_dash id = elim (strip_prefix prefix_dash id) [
  | none ↦ none
  | some num ↦ parse_u32 (before_dot num)
]

abbrev pub raise_to : ℕ → Option ℕ → ℕ
raise_to m none = m
raise_to m (some n) = if ltb m n then n else m

-- The loop of `max_id_for_prefix`, from `max_id`.
unfoldable pub max_id_from : ℕ → String → List String → ℕ
max_id_from m prefix_dash [] = m
max_id_from m prefix_dash (id ∷ ids) =
    max_id_from (raise_to m (number_of prefix_dash id)) prefix_dash ids

unfoldable pub max_id_for_prefix : List String → String → ℕ
unfolding max_id_from
max_id_for_prefix ids pre = max_id_from zero (pre <> "-") ids

abbrev pub global_id_base : ℕ
global_id_base = 1299

-- The inner loop of `global_max_id`, over the prefixes of one type.
unfoldable pub max_over_prefixes : List String → ℕ → List String → ℕ
max_over_prefixes ids m [] = m
max_over_prefixes ids m (p ∷ ps) =
    max_over_prefixes ids (raise_to m (some (max_id_for_prefix ids p))) ps

unfoldable pub max_over_types : List String → ℕ → List ItemType → ℕ
unfolding max_over_prefixes
max_over_types ids m [] = m
max_over_types ids m (t ∷ ts) = max_over_types ids (max_over_prefixes ids m (all_prefixes t)) ts

unfoldable pub global_max_id : List String → ℕ
unfolding max_over_types
global_max_id ids = max_over_types ids (max_over_types ids zero dev) research

-- `global_max_id(..).max(GLOBAL_ID_BASE) + 1`, on a u32.
unfoldable pub next_number : List String → ℕ
next_number ids =
    let g = global_max_id ids in
    ((if ltb g global_id_base then global_id_base else g) + 1) % u32_bound

unfoldable pub allocate_id : List String → ItemType → String
unfolding next_number
allocate_id ids t = prefix t <> "-" <> show (next_number ids)

pub data IdAllocError : Type 0 where
  unknown_type : String → IdAllocError

unfoldable pub allocate_id_from_str : List String → String → Result IdAllocError String
allocate_id_from_str ids type_str = elim (from_str_loose type_str) [
  | none ↦ err (unknown_type type_str)
  | some t ↦ ok (allocate_id ids t)
]
