-- ===== src/RelationVocab.antt =====
-- src/relation_vocab.rs: the predicates of typed edges and the classes of entities.
--
-- The vocabulary that the process holds is an argument: a list of predicates, and of classes. An
-- edge is refused with an EdgeError, which has the fields that its text is made of.
pub mod Reload
use Prim.Native.Char.{code}
use Prim.Native.String
use arrow_kanban.Prelude.{
  ℕ, ◌-◌, String, Bool, true, false, not, ◌&&◌, ◌||◌, ◌==◌, Option, none, some, List, [], ◌∷◌, map,
  any, keep, if◌then◌else◌, Result, ok, err, leb, eqb, lower, eq_ignore_ascii_case, is_whitespace,
}
use arrow_kanban.ItemType.{ItemType, as_str}
use arrow_kanban.Events.Effects.{split_once}

pub record Predicate : Type 0 where
  pub name : String
  -- the types of the source and of the target; empty for any item
  pub domain : List String
  pub range : List String
  pub inverse : Option String
  pub doc : String

pub record EntityClass : Type 0 where
  pub name : String
  pub id_prefix : Option String

pub data EdgeError : Type 0 where
  -- the name given and those known
  unknown_predicate : String → List String → EdgeError
  -- the predicate, the type and those allowed
  bad_domain : String → String → List String → EdgeError
  bad_range : String → String → List String → EdgeError
  self_edge : String → EdgeError

-- A text as its code points.
unfoldable pub codes : String → List ℕ
codes String.[] = []
codes (String.◌∷◌ c s) = code c ∷ codes s

abbrev pub same_codes : List ℕ → List ℕ → Bool
same_codes [] [] = true
same_codes (x ∷ xs) (y ∷ ys) = eqb x y && same_codes xs ys
same_codes _ _ = false

unfoldable pub trim_start : String → String
trim_start String.[] = String.[]
trim_start (String.◌∷◌ c s) =
    let rest = trim_start s in if is_whitespace (code c) then rest else String.◌∷◌ c s

unfoldable pub trim_end : String → String
trim_end String.[] = String.[]
trim_end (String.◌∷◌ c s) =
    let rest = trim_end s in
    if is_whitespace (code c) && rest == "" then String.[] else String.◌∷◌ c rest

-- `s.trim()`
unfoldable pub trim : String → String
unfolding trim_start trim_end
trim s = trim_end (trim_start s)

-- `_` and `-`
abbrev pub is_separator : ℕ → Bool
is_separator c = eqb c 95 || eqb c 45

-- `name.trim().to_ascii_lowercase().replace(['_', '-'], "")`
unfoldable pub normalized : String → List ℕ
unfolding codes trim
normalized name = keep (λ c. not (is_separator c)) (map lower (codes (trim name)))

abbrev pub find_predicate : (Predicate → Bool) → List Predicate → Option Predicate
find_predicate test [] = none
find_predicate test (p ∷ ps) = if test p then some p else find_predicate test ps

abbrev pub has_name : List ℕ → Predicate → Bool
has_name n p = same_codes (map lower (codes p.name)) n

-- `domain.is_empty() || domain.iter().any(|d| d.eq_ignore_ascii_case(t))`
unfoldable pub admits : List String → String → Bool
admits [] t = true
admits (d ∷ ds) t = any (λ x. eq_ignore_ascii_case x t) (d ∷ ds)

-- A target whose type is not known passes.
unfoldable pub admits_target : List String → Option String → Bool
unfolding admits
admits_target range none = true
admits_target range (some t) = admits range t

abbrev pub text_of : Option String → String
text_of (some t) = t
text_of none = ""

module _ (predicates : List Predicate) where
  unfoldable pub lookup : String → Option Predicate
  unfolding codes normalized
  lookup name = find_predicate (has_name (normalized name)) predicates

  abbrev pub names : List String
  names = map (λ (p : Predicate). p.name) predicates

  unfoldable pub validate_edge :
      String → String → String → String → Option String → Result EdgeError Predicate
  unfolding lookup admits admits_target
  validate_edge predicate source_id source_type target_id target_type = elim (lookup predicate) [
    | none ↦ err (unknown_predicate predicate names)
    | some p ↦
        if eq_ignore_ascii_case source_id target_id
        then err (self_edge source_id)
        else if not (admits p.domain source_type)
        then err (bad_domain p.name source_type p.domain)
        else if not (admits_target p.range target_type)
        then err (bad_range p.name (text_of target_type) p.range)
        else ok p
  ]

  unfoldable pub flat_column_for : String → Option String
  unfolding lookup
  flat_column_for predicate = elim (lookup predicate) [
    | none ↦ none
    | some p ↦
        if p.name == "related"
        then some "related"
        else if p.name == "dependsOn"
        then some "depends_on"
        else none
  ]

  unfoldable pub domain_allows : String → ItemType → Bool
  unfolding lookup admits as_str
  domain_allows predicate t = elim (lookup predicate) [
    | none ↦ false
    | some p ↦ admits p.domain (as_str t)
  ]

unfoldable pub parse_spec : String → Option (String × String)
unfolding split_once trim
parse_spec spec = elim (split_once spec) [
  | none ↦ none
  | some (pred, target) ↦
      if not (trim pred == "") && not (trim target == "")
      then some (trim pred, trim target)
      else none
]

-- `to_ascii_uppercase` of a character, by its code.
abbrev pub upper : ℕ → ℕ
upper c = if leb 97 c && leb c 122 then c - 32 else c

-- `s.to_ascii_uppercase() == text`
unfoldable pub upper_eq : String → String → Bool
unfolding codes
upper_eq s text = same_codes (map upper (codes s)) (codes text)

-- `id.split('-').next()`
unfoldable pub before_dash : String → String
before_dash String.[] = String.[]
before_dash (String.◌∷◌ c s) = if eqb (code c) 45 then String.[] else String.◌∷◌ c (before_dash s)

abbrev pub compiled_prefixes : List (String × String)
compiled_prefixes =
    ("EX", "expedition")
    ∷ ("EXP", "expedition")
    ∷ ("VY", "voyage")
    ∷ ("VOY", "voyage")
    ∷ ("CA", "campaign")
    ∷ ("CH", "chore")
    ∷ ("CHORE", "chore")
    ∷ ("HZ", "hazard")
    ∷ ("SG", "signal")
    ∷ ("SIG", "signal")
    ∷ ("FT", "feature")
    ∷ ("FEAT", "feature")
    ∷ ("H", "hypothesis")
    ∷ ("EXPR", "experiment")
    ∷ ("M", "measure")
    ∷ ("PAPER", "paper")
    ∷ ("LIT", "literature")
    ∷ ("IDEA", "idea")
    ∷ []

abbrev pub first_prefix : String → List (String × String) → Option String
first_prefix prefix [] = none
first_prefix prefix ((text, t) ∷ table) =
    if upper_eq prefix text then some t else first_prefix prefix table

abbrev pub class_of : String → List EntityClass → Option String
class_of prefix [] = none
class_of prefix (c ∷ cs) =
    if (elim c.id_prefix [ some p ↦ upper_eq prefix p | none ↦ false ])
    then some c.name
    else class_of prefix cs

unfoldable pub type_from_id : List EntityClass → String → Option String
unfolding before_dash upper_eq
type_from_id classes id = elim (first_prefix (before_dash id) compiled_prefixes) [
  | some t ↦ some t
  | none ↦ class_of (before_dash id) classes
]

unfoldable pub resolve_type : List EntityClass → String → Option String → Option String
unfolding type_from_id
resolve_type classes id (some t) = some t
resolve_type classes id none = type_from_id classes id
