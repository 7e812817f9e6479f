-- ===== src/CriticalPath/Keys.antt =====
-- src/critical_path.rs: the sort key of an item, and the lookups of the analysis.
use arrow_kanban.Prelude.{
  ℕ, zero, suc, ◌-◌, String, Bool, true, false, not, ◌||◌, Option, none, some, List, [], ◌∷◌, ◌==◌,
  ◌<>◌, ltb, leb, if◌then◌else◌, eq_ignore_ascii_case,
}
use arrow_kanban.Prelude.Int.{ℤ, pos, leb_ℤ}
use arrow_kanban.CriticalPath.{ItemInfo}

-- The stable sort of a slice by `le`.
abbrev pub insert_by {ℓ} : {A : Type ℓ} → (A → A → Bool) → A → List A → List A
insert_by le x [] = x ∷ []
insert_by le x (y ∷ ys) = if le x y then x ∷ y ∷ ys else y ∷ insert_by le x ys

abbrev pub sort_by {ℓ} : {A : Type ℓ} → (A → A → Bool) → List A → List A
sort_by le [] = []
sort_by le (x ∷ xs) = insert_by le x (sort_by le xs)

-- No letter outside ASCII has one of the letters of these words as its lower case.
unfoldable pub priority_rank : String → ℕ
priority_rank p =
    if eq_ignore_ascii_case p "critical"
    then 0
    else if eq_ignore_ascii_case p "high"
    then 1
    else if eq_ignore_ascii_case p "medium"
    then 2
    else if eq_ignore_ascii_case p "low"
    then 3
    else 99

-- The bucket, the rank and the priority.
pub record SortKey : Type 0 where
  pub bucket : ℕ
  pub value : ℤ
  pub priority : ℕ

unfoldable pub sort_key : ItemInfo → SortKey
unfolding priority_rank
sort_key i = elim i.rank [
  | some r ↦ record { bucket = 0; value = r; priority = priority_rank i.priority }
  | none ↦ record { bucket = 1; value = pos 0; priority = priority_rank i.priority }
]

-- `cmp` of the keys, as the test that it does not give Greater.
abbrev pub key_le : SortKey → SortKey → Bool
key_le a b =
    if ltb a.bucket b.bucket
    then true
    else if ltb b.bucket a.bucket
    then false
    else if not (leb_ℤ b.value a.value)
    then true
    else if not (leb_ℤ a.value b.value)
    then false
    else leb a.priority b.priority

-- `item_map`: a HashMap collected from the items keeps the last one with an id.
unfoldable pub item_of : List ItemInfo → String → Option ItemInfo
item_of [] id = none
item_of (i ∷ items) id = elim (item_of items id) [
  | some later ↦ some later
  | none ↦ if i.id == id then some i else none
]

-- The sort key of an id, (2, 0, 99) for one that has no item.
unfoldable pub key_of : List ItemInfo → String → SortKey
unfolding item_of sort_key
key_of items id = elim (item_of items id) [
  | some i ↦ sort_key i
  | none ↦ record { bucket = 2; value = pos 0; priority = 99 }
]

abbrev pub by_key : List ItemInfo → String → String → Bool
by_key items a b = key_le (key_of items a) (key_of items b)

unfoldable pub status_sort_order : String → ℕ
status_sort_order s =
    if s == "in_progress"
    then 0
    else if s == "backlog"
    then 1
    else if s == "review"
    then 2
    else if s == "done" || s == "complete" || s == "retired"
    then 3
    else 4

-- `chars().count()` and `chars().take(n)`
abbrev pub chars_count : String → ℕ
chars_count String.[] = 0
chars_count (String.◌∷◌ c s) = suc (chars_count s)

abbrev pub take_chars : ℕ → String → String
take_chars zero s = ""
take_chars (suc n) String.[] = ""
take_chars (suc n) (String.◌∷◌ c s) = String.◌∷◌ c (take_chars n s)

-- Called with 40 alone, so that `max - 3` does not underflow.
unfoldable pub truncate : String → ℕ → String
truncate s max = if leb (chars_count s) max then s else take_chars (max - 3) s <> "..."
