-- ===== src/Storage/Commit.antt =====
-- server/src/storage.rs: what a commit does to the log.
use arrow_kanban.Prelude.{
  ℕ, ◌+◌, ◌≤◌, ◌<◌, ◌≡◌, refl, ap, sym, subst, ◌∙◌, true, inl, inr, List, [], ◌∷◌, ◌++◌, arith,
  if◌then◌else◌, ok, err, ltb, Option-cases, Bool-cases,
}
use arrow_kanban.Storage.{
  StoreError, CommittedEvent, LogLine, entry, torn, Directory, ParquetBackend, Faults, add_line,
  scan_from, scan_high_water, collect_since, insert_by_seq, sort_by_seq, read_events_since,
  next_seq, commit, seq_bound,
}

module _ {E : Type 0} where
  -- The lines all decode, and their numbers go up from above `low` to `high`.
  abbrev pub Climbs : ℕ → ℕ → List (LogLine E) → Type 0
  Climbs low high [] = low ≡ high
  Climbs low high (torn t ∷ ls) = ⊥
  Climbs low high (entry c ∷ ls) = (low < c.seq) × Climbs c.seq high ls

  pub Climbs-add_line :
      (low high : ℕ) (ls : List (LogLine E)) (c : CommittedEvent E)
      → Climbs low high ls
      → high < c.seq
      → Climbs low c.seq (add_line ls (entry c))
  unfolding add_line
  Climbs-add_line low high [] c h k = (omega arith, refl)
  Climbs-add_line low high (torn t ∷ ls) c h k = absurd h
  Climbs-add_line low high (entry d ∷ ls) c h k = (h.0, Climbs-add_line d.seq high ls c h.1 k)

  pub scan_from-Climbs :
      (low high : ℕ) (ls : List (LogLine E)) → Climbs low high ls → scan_from low ls ≡ ok high
  unfolding scan_from
  scan_from-Climbs low high [] h = ap ok h
  scan_from-Climbs low high (torn t ∷ ls) h = absurd h
  scan_from-Climbs low high (entry c ∷ ls) h = ground (arith, scan_from-Climbs c.seq high ls)

  pub le-Climbs : (low high : ℕ) (ls : List (LogLine E)) → Climbs low high ls → low ≤ high
  le-Climbs low high [] h = omega arith
  le-Climbs low high (torn t ∷ ls) h = absurd h
  le-Climbs low high (entry c ∷ ls) h = omega (arith, le-Climbs c.seq high ls h.1)

  -- The events of the lines above a number, in the order of the log.
  abbrev pub since : ℕ → List (LogLine E) → List (CommittedEvent E)
  since k [] = []
  since k (torn t ∷ ls) = since k ls
  since k (entry c ∷ ls) = if ltb k c.seq then c ∷ since k ls else since k ls

  collect_since-Climbs :
      (k low high : ℕ) (ls : List (LogLine E))
      → Climbs low high ls
      → collect_since k ls ≡ ok (since k ls)
  unfolding collect_since
  collect_since-Climbs k low high [] h = refl
  collect_since-Climbs k low high (torn t ∷ ls) h = absurd h
  collect_since-Climbs k low high (entry c ∷ ls) h =
      rw (collect_since-Climbs k c.seq high ls h.1) refl

  -- Every number is above the given one.
  abbrev Above : ℕ → List (CommittedEvent E) → Type 0
  Above low [] = Unit
  Above low (c ∷ cs) = (low < c.seq) × Above c.seq cs

  Above-mono : (m n : ℕ) (cs : List (CommittedEvent E)) → m ≤ n → Above n cs → Above m cs
  Above-mono m n [] le h = tt
  Above-mono m n (c ∷ cs) le h = (omega (arith, h.0), h.1)

  since-Above :
      (k low high : ℕ) (ls : List (LogLine E)) → Climbs low high ls → Above low (since k ls)
  since-Above k low high [] h = tt
  since-Above k low high (torn t ∷ ls) h = absurd h
  since-Above k low high (entry c ∷ ls) h = elim (Bool-cases (ltb k c.seq)) [
    | inl newer ↦ rw newer (h.0, since-Above k c.seq high ls h.1)
    | inr older ↦
        let weaker : low ≤ c.seq = omega (arith, h.0) in
        rw older (Above-mono low c.seq (since k ls) weaker (since-Above k c.seq high ls h.1))
  ]

  sort_by_seq-Above : (low : ℕ) (cs : List (CommittedEvent E)) → Above low cs → sort_by_seq cs ≡ cs
  unfolding sort_by_seq insert_by_seq
  sort_by_seq-Above low [] h = refl
  sort_by_seq-Above low (c ∷ []) h = refl
  sort_by_seq-Above low (c ∷ d ∷ cs) h = rw (sort_by_seq-Above c.seq (d ∷ cs) h.1) (ground arith)

  pub since-add_line :
      (k low high : ℕ) (ls : List (LogLine E)) (c : CommittedEvent E)
      → Climbs low high ls
      → k < c.seq
      → since k (add_line ls (entry c)) ≡ since k ls ++ c ∷ []
  unfolding add_line
  since-add_line k low high [] c h b = ground arith
  since-add_line k low high (torn t ∷ ls) c h b = absurd h
  since-add_line k low high (entry d ∷ ls) c h b =
      ground (arith, since-add_line k d.seq high ls c h.1 b)

module _ {S E : Type 0} where
  -- The log decodes, its numbers go up, and the last is the backend's.
  abbrev pub IsSound : ParquetBackend S E → Type 0
  IsSound b = Climbs 0 b.committed_seq b.dir.lines

  abbrev pub committed_event : ParquetBackend S E → ℕ → E → CommittedEvent E
  committed_event b epoch event = record { seq = next_seq b; epoch = epoch; event = event }

  pub scan_high_water-IsSound :
      (b : ParquetBackend S E) → IsSound b → scan_high_water b.dir ≡ ok b.committed_seq
  unfolding scan_high_water
  scan_high_water-IsSound b h = scan_from-Climbs 0 b.committed_seq b.dir.lines h

  pub read_events_since-Climbs :
      (d : Directory S E) (high k : ℕ)
      → Climbs 0 high d.lines
      → read_events_since d k ≡ ok (since k d.lines)
  unfolding read_events_since
  read_events_since-Climbs d high k h =
      rw (collect_since-Climbs k 0 high d.lines h)
        (ap ok (sort_by_seq-Above 0 (since k d.lines) (since-Above k 0 high d.lines h)))

  module _ (b : ParquetBackend S E) (faults : Faults S E) (state : S) (epoch : ℕ) (event : E) where
    -- A commit keeps a sound log sound however its steps end, if a rollback that it needs takes
    -- effect and the numbers have not run out.
    pub commit-IsSound :
        IsSound b
        → faults.truncates ≡ true
        → b.committed_seq + 1 < seq_bound
        → IsSound (commit b faults state epoch event).1
    unfolding commit
    commit-IsSound h t k =
        let next : next_seq b ≡ b.committed_seq + 1 = omega (arith, k) in
        let longer =
          Climbs-add_line 0 b.committed_seq b.dir.lines (committed_event b epoch event) h
            (omega (arith, next)) in
        elim (Option-cases faults.append) [
          | inr (f, fails) ↦ ground (arith, h)
          | inl appended ↦ elim (Option-cases faults.save) [
            | inr (f, fails) ↦ ground (arith, h)
            | inl saved ↦ ground (arith, longer)
          ]
        ]

    -- A commit that fails leaves the log, the manifest and the high-water mark as they were, if its
    -- rollback takes effect: nothing is committed.
    pub commit-failed :
        (x : StoreError)
        → (commit b faults state epoch event).0 ≡ err x
        → faults.truncates ≡ true
        → let after = (commit b faults state epoch event).1 in
          (after.dir.lines ≡ b.dir.lines)
          × (after.dir.manifest ≡ b.dir.manifest)
          × (after.committed_seq ≡ b.committed_seq)
    unfolding commit
    commit-failed x h t = ground arith

    pub commit_ok :
        (n : ℕ)
        → (commit b faults state epoch event).0 ≡ ok n
        → let after = (commit b faults state epoch event).1 in
          (n ≡ next_seq b)
          × (after.committed_seq ≡ next_seq b)
          × (after.dir.files ≡ state)
          × (after.dir.lines ≡ add_line b.dir.lines (entry (committed_event b epoch event)))
    unfolding commit
    commit_ok n e = ground arith

    -- On a sound log whose numbers have not run out, a commit that returns gives the next number
    -- and leaves the state in the files, and the events since any earlier number are those there
    -- were, then the new one with the writer's epoch.
    pub commit-events_since :
        (n k : ℕ)
        → IsSound b
        → b.committed_seq + 1 < seq_bound
        → k ≤ b.committed_seq
        → (commit b faults state epoch event).0 ≡ ok n
        → let after = (commit b faults state epoch event).1 in
          (n ≡ b.committed_seq + 1)
          × (after.committed_seq ≡ n)
          × (after.dir.files ≡ state)
          × (read_events_since after.dir k
              ≡ ok (since k b.dir.lines ++ record { seq = n; epoch = epoch; event = event } ∷ []))
    commit-events_since n k h room le e =
        let after = (commit b faults state epoch event).1 in
        let c = committed_event b epoch event in
        let (same, seq, files, lines) = commit_ok n e in
        let next : next_seq b ≡ b.committed_seq + 1 = omega (arith, room) in
        let numbered : n ≡ b.committed_seq + 1 = same ∙ next in
        let longer : Climbs 0 (next_seq b) (add_line b.dir.lines (entry c)) =
          Climbs-add_line 0 b.committed_seq b.dir.lines c h (omega (arith, next)) in
        let sound : Climbs 0 (next_seq b) after.dir.lines =
          subst (λ ls. Climbs 0 (next_seq b) ls) (sym lines) longer in
        (
          numbered,
          seq ∙ sym same,
          files,
          read_events_since-Climbs after.dir (next_seq b) k sound
              ∙ ap (λ ls. ok (since k ls)) lines
              ∙ ap ok (since-add_line k 0 b.committed_seq b.dir.lines c h (omega (arith, next)))
              ∙ ap
                  (λ m.
                    ok (
                      since k b.dir.lines ++ record { seq = m; epoch = epoch; event = event } ∷ []))
                  (sym same),
        )
