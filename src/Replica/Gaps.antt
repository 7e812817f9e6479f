-- ===== src/Replica/Gaps.antt =====
-- server/src/replica.rs: which tails `detect_gap` and the scan of the epochs let pass.
use arrow_kanban.Prelude.{
  ℕ, ◌+◌, ◌%◌, ◌≤◌, ◌≡◌, ◌≢◌, ◌↔◌, none, List, [], ◌∷◌, arith, Bool-cases, inl, inr, eqb,
}
use arrow_kanban.Storage.{CommittedEvent, seq_bound}
use arrow_kanban.Events.{MutationEvent}
use arrow_kanban.Replica.{detect_gap, find_hole, epoch_regression}

module _ {P : Type 0} where
  -- Each event stands at the position after the one before it, the first after `prev`.
  abbrev pub Follows : ℕ → List (CommittedEvent (MutationEvent P)) → Type 0
  Follows prev [] = Unit
  Follows prev (c ∷ cs) = (c.seq ≡ (prev + 1) % seq_bound) × Follows c.seq cs

  -- No epoch is below the one before it.
  abbrev pub Rises : ℕ → List (CommittedEvent (MutationEvent P)) → Type 0
  Rises running [] = Unit
  Rises running (c ∷ cs) = (running ≤ c.epoch) × Rises c.epoch cs

  find_hole-none :
      (prev : ℕ) (cs : List (CommittedEvent (MutationEvent P)))
      → (find_hole prev cs ≡ none) ↔ Follows prev cs
  unfolding find_hole
  find_hole-none prev [] = ground arith
  find_hole-none prev (c ∷ cs) = elim (Bool-cases (eqb c.seq ((prev + 1) % seq_bound))) [
    | inl t ↦ ground (arith, find_hole-none c.seq cs)
    | inr f ↦ ground arith
  ]

  -- A fetched tail passes the gap guard exactly if it is not empty, begins right after the position
  -- that the replica has applied, and has no hole.
  pub detect_gap-none :
      (tail : List (CommittedEvent (MutationEvent P))) (seq : ℕ)
      → (detect_gap tail seq ≡ none) ↔ ((tail ≢ []) × Follows seq tail)
  unfolding detect_gap
  detect_gap-none [] seq = (λ h. cc, λ h. absurd (h.0 (ground arith)))
  detect_gap-none (c ∷ cs) seq = ground (arith, find_hole-none c.seq cs)

  -- The scan of a tail finds no regression exactly if no epoch in it is below the one before it,
  -- the first not below that of the last event applied.
  pub epoch_regression-none :
      (running : ℕ) (cs : List (CommittedEvent (MutationEvent P)))
      → (epoch_regression running cs ≡ none) ↔ Rises running cs
  unfolding epoch_regression
  epoch_regression-none running [] = ground arith
  epoch_regression-none running (c ∷ cs) = ground (arith, epoch_regression-none c.epoch cs)
