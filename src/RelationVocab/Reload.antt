-- ===== src/RelationVocab/Reload.antt =====
-- src/relation_vocab.rs: the compiled predicates, and a reload of the vocabulary that a process
-- holds.
--
-- What the two parsers make of the Turtle text is an argument, and so is the budget of reloads. A
-- reload is one step: the two locks and the counter are those of one process.
use arrow_kanban.Prelude.{
  ℕ, ◌+◌, ◌≤◌, ◌≡◌, refl, String, Bool, true, false, not, ◌==◌, Option, none, some, List, [], ◌∷◌,
  map, any, keep, All, Option-cases, if◌then◌else◌, Result, ok, err, leb, length, arith, Bool-cases,
  inl, inr,
}
use arrow_kanban.RelationVocab.{Predicate, EntityClass}

abbrev predicate_of : String → List String → List String → Option String → String → Predicate
predicate_of name domain range inverse doc = record {
  name = name;
  domain = domain;
  range = range;
  inverse = inverse;
  doc = doc;
}

-- `FALLBACK_PREDICATES`
abbrev pub fallback_predicates : List Predicate
fallback_predicates =
    predicate_of "related" [] [] none
      "informational link between any two items (the existing --related)"
    ∷ predicate_of "dependsOn" [] [] (some "blocks")
        "this item is BLOCKED BY the target (the existing --depends-on)"
    ∷ predicate_of "blocks" [] [] (some "dependsOn")
        "this item BLOCKS the target (inverse of dependsOn; stored one way only)"
    ∷ predicate_of "parent" [] [] none
        "hierarchical containment — this item is contained by the target"
    ∷ predicate_of "implements" ("expedition" ∷ []) ("voyage" ∷ []) (some "spawns")
        "an expedition delivers work toward a voyage"
    ∷ predicate_of "spawns" ("voyage" ∷ []) ("expedition" ∷ []) (some "implements")
        "a voyage creates and coordinates an expedition"
    ∷ predicate_of "tests" ("hypothesis" ∷ []) ("paper" ∷ []) none
        "a hypothesis is tested in the context of a paper"
    ∷ predicate_of "validates" ("experiment" ∷ []) ("hypothesis" ∷ []) none
        "an experiment produces evidence for or against a hypothesis"
    ∷ predicate_of "measures" ("measure" ∷ []) ("experiment" ∷ "hypothesis" ∷ []) none
        "a measure tracks the outcome of an experiment (or, per current practice, a hypothesis)"
    ∷ []

abbrev pub reload_budget : ℕ
reload_budget = 100

-- What the process holds.
pub record Vocabulary : Type 0 where
  pub predicates : List Predicate
  pub classes : List EntityClass
  pub reloads_used : ℕ

pub record VocabReload : Type 0 where
  pub predicates_loaded : ℕ
  pub classes_loaded : ℕ
  pub added : List String
  pub removed : List String

pub data ReloadError : Type 0 where
  parse_failed : String → ReloadError
  no_predicates : ReloadError
  class_parse_failed : String → ReloadError
  no_classes : ReloadError
  -- the compiled predicate that is missing
  below_floor : String → ReloadError
  budget_exhausted : ReloadError

abbrev pub declares : List Predicate → String → Bool
declares ps name = any (λ (p : Predicate). p.name == name) ps

-- The loop over the compiled predicates.
unfoldable pub first_missing : List Predicate → List Predicate → Option String
first_missing ps [] = none
first_missing ps (f ∷ floor) = if declares ps f.name then first_missing ps floor else some f.name

-- The names of the first list that the second does not declare.
unfoldable pub not_in : List Predicate → List Predicate → List String
not_in ps qs =
    map (λ (p : Predicate). p.name) (keep (λ (p : Predicate). not (declares qs p.name)) ps)

abbrev pub report_of : List Predicate → List EntityClass → Vocabulary → VocabReload
report_of preds classes v = record {
  predicates_loaded = length preds;
  classes_loaded = length classes;
  added = not_in preds v.predicates;
  removed = not_in v.predicates preds;
}

abbrev pub no_delta : VocabReload → Bool
no_delta report = elim report.added [
  | [] ↦ elim report.removed [ [] ↦ true | _ ∷ _ ↦ false ]
  | _ ∷ _ ↦ false
]

-- From the report on.
unfoldable pub swap :
    List Predicate → List EntityClass → Vocabulary → Result ReloadError VocabReload × Vocabulary
unfolding not_in
swap preds classes v =
    if no_delta (report_of preds classes v)
    then (ok (report_of preds classes v), v)
    else if leb reload_budget v.reloads_used
    then (err budget_exhausted, v)
    else (
      ok (report_of preds classes v),
      record { predicates = preds; classes = classes; reloads_used = v.reloads_used + 1 },
    )

unfoldable pub reload_from_ttl :
    Result String (List Predicate)
    → Result String (List EntityClass)
    → Vocabulary
    → Result ReloadError VocabReload × Vocabulary
unfolding first_missing swap
reload_from_ttl (err e) classes v = (err (parse_failed e), v)
reload_from_ttl (ok []) classes v = (err no_predicates, v)
reload_from_ttl (ok (p ∷ ps)) (err e) v = (err (class_parse_failed e), v)
reload_from_ttl (ok (p ∷ ps)) (ok []) v = (err no_classes, v)
reload_from_ttl (ok (p ∷ ps)) (ok (c ∷ cs)) v = elim (first_missing (p ∷ ps) fallback_predicates) [
  | some name ↦ (err (below_floor name), v)
  | none ↦ swap (p ∷ ps) (c ∷ cs) v
]

-- Every compiled predicate is declared.
abbrev pub IsFloored : Vocabulary → Type 0
IsFloored v = All (λ (f : Predicate). declares v.predicates f.name ≡ true) fallback_predicates

All-first_missing :
    (ps floor : List Predicate)
    → first_missing ps floor ≡ none
    → All (λ (f : Predicate). declares ps f.name ≡ true) floor
unfolding first_missing
All-first_missing ps [] h = tt
All-first_missing ps (f ∷ floor) h = elim (Bool-cases (declares ps f.name)) [
  | inl there ↦ (there, All-first_missing ps floor (ground arith))
  | inr absent ↦ absurd (cc)
]

swap-IsFloored :
    (preds : List Predicate) (classes : List EntityClass) (v : Vocabulary)
    → All (λ (f : Predicate). declares preds f.name ≡ true) fallback_predicates
    → IsFloored v
    → v.reloads_used ≤ reload_budget
    → let after = (swap preds classes v).1 in IsFloored after × (after.reloads_used ≤ reload_budget)
unfolding swap
swap-IsFloored preds classes v new old used =
    elim (Bool-cases (no_delta (report_of preds classes v))) [
      | inl same ↦ rw same (old, used)
      | inr differs ↦ elim (Bool-cases (leb reload_budget v.reloads_used)) [
        | inl spent ↦ rw (differs, spent) (old, used)
        | inr left ↦ rw (differs, left) (new, ground arith)
      ]
    ]

-- A vocabulary that declares every compiled predicate and is within its budget of reloads is both
-- after a reload from any text, refused or not.
pub reload_from_ttl-IsFloored :
    (preds : Result String (List Predicate)) (classes : Result String (List EntityClass))
    (v : Vocabulary)
    → IsFloored v
    → v.reloads_used ≤ reload_budget
    → let after = (reload_from_ttl preds classes v).1 in
      IsFloored after × (after.reloads_used ≤ reload_budget)
unfolding reload_from_ttl
reload_from_ttl-IsFloored (err e) classes v old used = (old, used)
reload_from_ttl-IsFloored (ok []) classes v old used = (old, used)
reload_from_ttl-IsFloored (ok (p ∷ ps)) (err e) v old used = (old, used)
reload_from_ttl-IsFloored (ok (p ∷ ps)) (ok []) v old used = (old, used)
reload_from_ttl-IsFloored (ok (p ∷ ps)) (ok (c ∷ cs)) v old used =
    elim (Option-cases (first_missing (p ∷ ps) fallback_predicates)) [
      | inl floored ↦
          rw (floored, reload_from_ttl)
            (swap-IsFloored (p ∷ ps) (c ∷ cs) v
              (All-first_missing (p ∷ ps) fallback_predicates floored) old used)
      | inr (name, missing) ↦ rw (missing, reload_from_ttl) (old, used)
    ]

not_in-nil :
    (ps qs : List Predicate)
    → All (λ (p : Predicate). declares qs p.name ≡ true) ps
    → not_in ps qs ≡ []
unfolding not_in
not_in-nil [] qs h = refl
not_in-nil (p ∷ ps) qs (here, rest) = ground (arith, not_in-nil ps qs rest)

first_missing-All :
    (ps floor : List Predicate)
    → All (λ (f : Predicate). declares ps f.name ≡ true) floor
    → first_missing ps floor ≡ none
unfolding first_missing
first_missing-All ps [] h = refl
first_missing-All ps (f ∷ floor) (here, rest) = rw here (first_missing-All ps floor rest)

-- A text that declares at least one class, every compiled predicate, and by name the predicates
-- that are held and none else is reported as reloaded, with nothing added and nothing removed, and changes nothing: neither the types that a
-- predicate of it allows nor a class that it declares is taken up.
pub reload_from_ttl-same_names :
    (p : Predicate) (ps : List Predicate) (c : EntityClass) (cs : List EntityClass) (v : Vocabulary)
    → All (λ (f : Predicate). declares (p ∷ ps) f.name ≡ true) fallback_predicates
    → All (λ (q : Predicate). declares v.predicates q.name ≡ true) (p ∷ ps)
    → All (λ (q : Predicate). declares (p ∷ ps) q.name ≡ true) v.predicates
    → reload_from_ttl (ok (p ∷ ps)) (ok (c ∷ cs)) v ≡ (
      ok (record {
        predicates_loaded = length (p ∷ ps);
        classes_loaded = length (c ∷ cs);
        added = [];
        removed = [];
      }),
      v,
    )
unfolding reload_from_ttl swap
reload_from_ttl-same_names p ps c cs v floored known kept = ground (
  arith,
  first_missing-All (p ∷ ps) fallback_predicates floored,
  not_in-nil (p ∷ ps) v.predicates known,
  not_in-nil v.predicates (p ∷ ps) kept,
)
