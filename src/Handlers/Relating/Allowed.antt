-- ===== src/Handlers/Relating/Allowed.antt =====
-- server/src/handlers/core.rs: the edges that a validated request may write are typed.
use arrow_kanban.Prelude.{
  ℕ, ◌≡◌, String, Bool, true, ◌&&◌, ◌==◌, Option, some, List, [], ◌∷◌, arith, eq_refl, any, All,
  All-append, ok, Bool-cases, Option-cases, Result-cases, inl, inr,
}
use arrow_kanban.Relations.{
  Relation, RelationsStore, is_edge, add_relation, delete_edge, remove_relation,
}
use arrow_kanban.RelationVocab.{
  Predicate, EntityClass, admits, admits_target, find_predicate, has_name, normalized, lookup,
  validate_edge, parse_spec, type_from_id, text_of,
}
use arrow_kanban.Handlers.Relating.{Edges, source_or_new, parse_and_validate}

find_predicate-any :
    (test q : Predicate → Bool) (ps : List Predicate) (p : Predicate)
    → find_predicate test ps ≡ some p
    → q p ≡ true
    → any q ps ≡ true
find_predicate-any test q [] p h good = cc
find_predicate-any test q (x ∷ ps) p h good = elim (Bool-cases (test x)) [
  | inl here ↦ ground arith
  | inr there ↦ ground (arith, find_predicate-any test q ps p)
]

module _ (predicates : List Predicate) (classes : List EntityClass) where
  -- The vocabulary has a predicate of this name that allows the types.
  abbrev pub is_allowed : String → String → Option String → Bool
  is_allowed predicate source_type target_type =
      any
        (λ (p : Predicate).
          p.name == predicate && admits p.domain source_type && admits_target p.range target_type)
        predicates

  -- A row that the vocabulary allows between the types of its two ids.
  abbrev pub is_typed : Relation → Bool
  is_typed r =
      is_allowed r.predicate (text_of (type_from_id classes r.source_id))
        (type_from_id classes r.target_id)

  pub validate_edge-ok :
      (predicate source_id source_type target_id : String) (target_type : Option String)
      (p : Predicate)
      → validate_edge predicates predicate source_id source_type target_id target_type ≡ ok p
      → is_allowed p.name source_type target_type ≡ true
  unfolding validate_edge lookup
  validate_edge-ok predicate source_id source_type target_id target_type p h =
      elim (Option-cases (lookup predicates predicate)) [
        | inl unknown ↦ absurd (ground arith)
        | inr (q, found) ↦
            let fits : (admits q.domain source_type && admits_target q.range target_type) ≡ true =
              ground arith in
            let same : q ≡ p = ground arith in
            find_predicate-any (has_name (normalized predicate))
              (λ (x : Predicate).
                x.name == p.name
                && admits x.domain source_type
                && admits_target x.range target_type)
              predicates q found (rw (← same) (ground (arith, eq_refl q.name)))
      ]

  abbrev pub Allowed : String → Edges → Type 0
  Allowed source_type edges =
      All (λ (e : String × String). is_allowed e.0 source_type (type_from_id classes e.1) ≡ true)
        edges

  pub parse_and_validate-Allowed :
      (specs : List String) (source_type : String) (source_id : Option String) (edges : Edges)
      → parse_and_validate predicates classes specs source_type source_id ≡ ok edges
      → Allowed source_type edges
  unfolding parse_and_validate
  parse_and_validate-Allowed [] source_type source_id edges h =
      let e : edges ≡ [] = ground arith in rw e tt
  parse_and_validate-Allowed (spec ∷ specs) source_type source_id edges h =
      elim (Option-cases (parse_spec spec)) [
        | inl malformed ↦ absurd (ground arith)
        | inr ((pred, target), split) ↦
            elim (Result-cases (
              validate_edge predicates pred (source_or_new source_id) source_type target
                (type_from_id classes target))) [
                  | inl (p, valid) ↦
                      elim (Result-cases
                        (parse_and_validate predicates classes specs source_type source_id)) [
                          | inl (rest, parsed) ↦
                              let e : edges ≡ (p.name, target) ∷ rest = ground arith in
                              rw e (
                                validate_edge-ok pred (source_or_new source_id) source_type target
                                    (type_from_id classes target) p valid,
                                parse_and_validate-Allowed specs source_type source_id rest parsed,
                              )
                          | inr (x, bad) ↦ absurd (ground arith)
                        ]
                  | inr (e, invalid) ↦ absurd (ground arith)
                ]
      ]

  abbrev pub AllTyped : RelationsStore → Type 0
  AllTyped rows = All (λ r. is_typed r ≡ true) rows

  delete_edge-AllTyped :
      (source target predicate : String) (rows : RelationsStore)
      → AllTyped rows
      → AllTyped (delete_edge source target predicate rows)
  unfolding delete_edge
  delete_edge-AllTyped source target predicate [] h = tt
  delete_edge-AllTyped source target predicate (r ∷ rows) (here, rest) =
      elim (Bool-cases (is_edge source target predicate r)) [
        | inl found ↦ rw found (here, rest)
        | inr other ↦ rw other (here, delete_edge-AllTyped source target predicate rows rest)
      ]

  pub remove_relation-AllTyped :
      (source target predicate : String) (rows : RelationsStore)
      → AllTyped rows
      → AllTyped (remove_relation source target predicate rows).1
  unfolding remove_relation
  remove_relation-AllTyped source target predicate rows h =
      elim (Bool-cases (any (is_edge source target predicate) rows)) [
        | inl found ↦ rw found (delete_edge-AllTyped source target predicate rows h)
        | inr absent ↦ rw absent h
      ]

  pub add_relation-AllTyped :
      (relation_id : String) (now : ℕ) (source target predicate : String) (rows : RelationsStore)
      → is_allowed predicate (text_of (type_from_id classes source)) (type_from_id classes target)
        ≡ true
      → AllTyped rows
      → AllTyped (add_relation relation_id now source target predicate rows).1
  unfolding add_relation
  add_relation-AllTyped relation_id now source target predicate rows allowed h =
      All-append (λ r. is_typed r ≡ true) rows _ h (allowed, tt)
