-- ===== src/ItemType.antt =====
-- src/item_type.rs: the kinds of work items on the two boards.
pub mod Names
use Prim.Native.Char.{code}
use arrow_kanban.Prelude.{
  ℕ, ◌+◌, String, Bool, true, false, ◌&&◌, Option, none, some, List, [], ◌∷◌, any, leb, eqb, ◌==◌,
  if◌then◌else◌,
}

pub data ItemType : Type 0 where
  expedition chore voyage campaign hazard signal feature : ItemType
  paper hypothesis experiment measure idea literature : ItemType

-- `ItemType::DEV`
abbrev pub dev : List ItemType
dev = expedition ∷ chore ∷ voyage ∷ campaign ∷ hazard ∷ signal ∷ feature ∷ []

-- `ItemType::RESEARCH`
abbrev pub research : List ItemType
research = paper ∷ hypothesis ∷ experiment ∷ measure ∷ idea ∷ literature ∷ []

unfoldable pub prefix : ItemType → String
prefix expedition = "EX"
prefix chore = "CH"
prefix voyage = "VY"
prefix campaign = "CA"
prefix hazard = "HZ"
prefix signal = "SG"
prefix feature = "FT"
prefix paper = "PAPER"
prefix hypothesis = "H"
prefix experiment = "EXPR"
prefix measure = "M"
prefix idea = "IDEA"
prefix literature = "LIT"

unfoldable pub legacy_prefixes : ItemType → List String
legacy_prefixes expedition = "EXP" ∷ []
legacy_prefixes chore = "CHORE" ∷ []
legacy_prefixes voyage = "VOY" ∷ []
legacy_prefixes hazard = "HAZ" ∷ []
legacy_prefixes signal = "SIG" ∷ []
legacy_prefixes feature = "FEAT" ∷ []
legacy_prefixes _ = []

unfoldable pub all_prefixes : ItemType → List String
unfolding prefix legacy_prefixes
all_prefixes t = prefix t ∷ legacy_prefixes t

unfoldable pub as_str : ItemType → String
as_str expedition = "expedition"
as_str chore = "chore"
as_str voyage = "voyage"
as_str campaign = "campaign"
as_str hazard = "hazard"
as_str signal = "signal"
as_str feature = "feature"
as_str paper = "paper"
as_str hypothesis = "hypothesis"
as_str experiment = "experiment"
as_str measure = "measure"
as_str idea = "idea"
as_str literature = "literature"

-- `to_lowercase` of one character, as far as a comparison with an ASCII text sees it: the ASCII
-- capitals, and the Kelvin sign, which is the one other character whose lower case is ASCII.
abbrev pub to_lower : ℕ → ℕ
to_lower c = if leb 65 c && leb c 90 then c + 32 else if eqb c 0x212A then 107 else c

-- `s.to_lowercase() == text`, where `text` is ASCII.
unfoldable pub lower_eq : String → String → Bool
lower_eq String.[] String.[] = true
lower_eq (String.◌∷◌ c s) (String.◌∷◌ d text) = eqb (to_lower (code c)) (code d) && lower_eq s text
lower_eq _ _ = false

abbrev pub among : String → List String → Bool
among s names = any (lower_eq s) names

unfoldable pub from_str_loose : String → Option ItemType
unfolding lower_eq
from_str_loose s =
    if among s ("expedition" ∷ "exp" ∷ "ex" ∷ [])
    then some expedition
    else if among s ("chore" ∷ "task" ∷ "status-report" ∷ "status_report" ∷ "bug" ∷ "ch" ∷ [])
    then some chore
    else if among s ("voyage" ∷ "voy" ∷ "vy" ∷ [])
    then some voyage
    else if among s ("campaign" ∷ "camp" ∷ "ca" ∷ [])
    then some campaign
    else if among s ("hazard" ∷ "haz" ∷ "hz" ∷ [])
    then some hazard
    else if among s ("signal" ∷ "sig" ∷ "sg" ∷ [])
    then some signal
    else if among s ("feature" ∷ "feat" ∷ "ft" ∷ [])
    then some feature
    else if among s ("paper" ∷ [])
    then some paper
    else if among s ("hypothesis" ∷ "h" ∷ [])
    then some hypothesis
    else if among s ("experiment" ∷ "expr" ∷ [])
    then some experiment
    else if among s ("measure" ∷ "m" ∷ [])
    then some measure
    else if among s ("idea" ∷ [])
    then some idea
    else if among s ("literature" ∷ "lit" ∷ [])
    then some literature
    else none

unfoldable pub board : ItemType → String
board expedition = "development"
board chore = "development"
board voyage = "development"
board campaign = "development"
board hazard = "development"
board signal = "development"
board feature = "development"
board _ = "research"

unfoldable pub is_research : ItemType → Bool
unfolding board
is_research t = board t == "research"
