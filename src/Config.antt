-- ===== src/Config.antt =====
-- src/config.rs: the configuration of the boards. A `HashMap` is an association list that is only
-- looked up. Reading YAML is serde's; what is modelled starts from the deserialised file.
pub mod Checks
use arrow_kanban.Prelude.{
  ℕ, String, Bool, ◌||◌, Option, none, some, List, [], ◌∷◌, any, find, contains, lookup, ◌==◌,
  eq_ignore_ascii_case, if◌then◌else◌, Result, ok, err, ◌>>=◌, ◌<>◌,
}

pub record BoardConfig : Type 0 where
  pub name : String
  pub preset : String
  pub path : String
  pub scan_paths : List String
  pub ignore : List String
  pub wip_exempt_types : List String
  pub wip_limits : List (String × ℕ)  -- u32
  pub states : List String
  pub phases : List String
  pub type_states : List (String × List String)

pub record ConfigFile : Type 0 where
  pub version : String
  pub boards : List BoardConfig
  pub namespace : Option String
  pub default_board_name : Option String

pub data ConfigError : Type 0 where
  board_not_found invalid : String → ConfigError

unfoldable pub wip_limit : BoardConfig → String → Option ℕ
wip_limit b category = lookup category b.wip_limits

unfoldable pub is_wip_exempt : BoardConfig → String → Bool
is_wip_exempt b item_type = any (λ t. eq_ignore_ascii_case t item_type) b.wip_exempt_types

unfoldable pub is_valid_state : BoardConfig → String → Bool
is_valid_state b state = contains b.states state

unfoldable pub is_valid_state_for_type : BoardConfig → String → String → Bool
is_valid_state_for_type b state item_type = elim (lookup item_type b.type_states) [
  | some own ↦ contains own state
  | none ↦ is_valid_state b state
]

unfoldable pub states_for_type : BoardConfig → String → List String
states_for_type b item_type = elim (lookup item_type b.type_states) [
  | some own ↦ own
  | none ↦ b.states
]

-- `ConfigFile::board`
unfoldable pub board : ConfigFile → String → Result ConfigError BoardConfig
board c name = elim (find (λ b. b.name == name) c.boards) [
  | some b ↦ ok b
  | none ↦ err (board_not_found name)
]

-- `ConfigFile::default_board`
unfoldable pub default_board : ConfigFile → Result ConfigError BoardConfig
default_board c = elim c.default_board_name [
  | some name ↦ board c name
  | none ↦ board c "development"
]

abbrev pub is_empty {ℓ} : {A : Type ℓ} → List A → Bool
is_empty [] = Bool.true
is_empty (x ∷ xs) = Bool.false

-- The body of the loop of `ConfigFile::validate`.
unfoldable pub validate_board : BoardConfig → Result ConfigError (Unit {0})
validate_board b =
    if is_empty b.states
    then err (invalid ("Board '" <> b.name <> "' has no states defined"))
    else if is_empty b.scan_paths
    then err (invalid ("Board '" <> b.name <> "' has no scan_paths defined"))
    else ok tt

unfoldable pub validate_boards : List BoardConfig → Result ConfigError (Unit {0})
validate_boards [] = ok tt
validate_boards (b ∷ bs) = validate_board b >>= λ _. validate_boards bs

unfoldable pub validate : ConfigFile → Result ConfigError (Unit {0})
validate c =
    if is_empty c.boards then err (invalid "No boards defined") else validate_boards c.boards
