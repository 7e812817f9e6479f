-- ===== src/CriticalPath/Order.antt =====
-- src/critical_path.rs: Kahn's algorithm ends, and what it orders stands after what it depends on.
use arrow_kanban.Prelude.{
  ℕ, zero, suc, ◌+◌, ◌≤◌, ◌≡◌, refl, ap, ◌∙◌, ◌⊎◌, String, false, some, List, [], ◌∷◌, ◌++◌, arith,
  contains, length, length-append, inl, inr,
}
use mathlib.Core.List.{append_assoc, append-nil}
use arrow_kanban.CriticalPath.{Edge, Graph}
use arrow_kanban.CriticalPath.Degrees.{IsGraph}
use arrow_kanban.CriticalPath.Rounds.{
  missing, IsSound, IsShuffle, head-is_free, visit-IsSound, start-IsSound,
}
use arrow_kanban.CriticalPath.Walk.{Search, Outcome, start, visit, walk, kahn}

-- Each item of a list has all its edges from the items before it, `done` being those before all.
abbrev pub Backs : List Edge → List String → List String → Type 0
Backs es done [] = Unit
Backs es done (t ∷ ts) =
    (contains done t ≡ false) × (missing es done t ≡ 0) × Backs es (done ++ t ∷ []) ts

Backs-snoc :
    (es : List Edge) (done ts : List String) (t : String)
    → Backs es done ts
    → contains (done ++ ts) t ≡ false
    → missing es (done ++ ts) t ≡ 0
    → Backs es done (ts ++ t ∷ [])
Backs-snoc es done [] t b f m = (rw append-nil at f, rw append-nil at m, tt)
Backs-snoc es done (x ∷ ts) t b f m =
    (b.0, b.1, Backs-snoc es (done ++ x ∷ []) ts t b.2 (rw append_assoc f) (rw append_assoc m))

pub Backs-split :
    (es : List Edge) (done before after : List String) (t : String)
    → Backs es done (before ++ t ∷ after)
    → missing es (done ++ before) t ≡ 0
Backs-split es done [] after t b = rw append-nil b.1
Backs-split es done (x ∷ before) after t b =
    rw (← append_assoc done (x ∷ []) before) (Backs-split es (done ++ x ∷ []) before after t b.2)

pub List-cases :
    (l : List String) → (l ≡ []) ⊎ ((x : String) × (rest : List String) × (l ≡ x ∷ rest))
List-cases [] = inl refl
List-cases (x ∷ rest) = inr (x, rest, refl)

walk-step :
    (es : List Edge) (fuel : ℕ) (w w' : Search) (node : String) (rest : List String)
    → w.queue ≡ node ∷ rest
    → visit es node rest w ≡ some w'
    → walk es (suc fuel) w ≡ walk es fuel w'
unfolding walk
walk-step es fuel w w' node rest e run = rw (e, walk, run) refl

module _ (g : Graph) (v : IsGraph g) where
  -- How a search ends.
  pub record Ends (o : Outcome) : Type 0 where
    pub result : Search
    pub returns : o ≡ Outcome.finished result
    pub sound : IsSound g result
    pub drained : result.queue ≡ []
    pub backs : Backs g.edges [] result.ordered

  walk-Ends :
      (fuel : ℕ) (w : Search)
      → IsSound g w
      → Backs g.edges [] w.ordered
      → length g.keys ≤ fuel + length w.ordered
      → Ends (walk g.edges fuel w)
  unfolding walk
  walk-Ends zero w b o h = elim (List-cases w.queue) [
    | inl e ↦ record { result = w; returns = ground arith; sound = b; drained = e; backs = o }
    | inr (node, rest, e) ↦ absurd (omega (arith, b.total, ap length e))
  ]
  walk-Ends (suc fuel) w b o h = elim (List-cases w.queue) [
    | inl e ↦ record { result = w; returns = ground arith; sound = b; drained = e; backs = o }
    | inr (node, rest, e) ↦
        let (fresh, free) = head-is_free g v w node rest e b in
        let (w', run, kept, same) = visit-IsSound g v w node rest e b in
        let backed : Backs g.edges [] w'.ordered =
          rw same (Backs-snoc g.edges [] w.ordered node o fresh free) in
        let room : length g.keys ≤ fuel + length w'.ordered =
          omega (arith, ap length same, length-append w.ordered (node ∷ [])) in
        let rest_of_it = walk-Ends fuel w' kept backed room in
        record {
          result = rest_of_it.result;
          returns = walk-step g.edges fuel w w' node rest e run ∙ rest_of_it.returns;
          sound = rest_of_it.sound;
          drained = rest_of_it.drained;
          backs = rest_of_it.backs;
        }
  ]

  pub kahn-Ends :
      (hash_order : List String → List String) → IsShuffle hash_order → Ends (kahn hash_order g)
  unfolding kahn start
  kahn-Ends hash_order shuffles =
      walk-Ends (length g.keys) (start hash_order g) (start-IsSound hash_order shuffles g v) tt
        (omega arith)
