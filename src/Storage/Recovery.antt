-- ===== src/Storage/Recovery.antt =====
-- server/src/storage.rs: what a load gives after a commit, and after a crash in one.
use arrow_kanban.Prelude.{
  false, ℕ, ◌+◌, ◌≤◌, ◌<◌, String, ◌≡◌, refl, ap, sym, ◌∙◌, subst, true, some, inl, inr, List, [],
  ◌∷◌, ◌++◌, arith, Result, ok, ltb, ◌>>=◌, Bool-cases,
}
use arrow_kanban.Storage.{
  LogLine, entry, torn, ParquetBackend, Faults, add_line, scan_high_water,
  read_checkpoint_high_water, next_seq, commit, replay_all, replay_tail, load, seq_bound,
}
use arrow_kanban.Storage.Commit.{
  Climbs, since, IsSound, committed_event, read_events_since-Climbs, since-add_line,
  Climbs-add_line, commit_ok, le-Climbs, scan_from-Climbs,
}

module _ {E : Type 0} where
  since-all :
      (low high k : ℕ) (ls : List (LogLine E)) → Climbs low high ls → high ≤ k → since k ls ≡ []
  since-all low high k [] h le = refl
  since-all low high k (torn t ∷ ls) h le = absurd h
  since-all low high k (entry c ∷ ls) h le =
      ground (arith, since-all c.seq high k ls h.1 le, le-Climbs c.seq high ls h.1)

module _ {S E : Type 0} (replay_into : E → S → Result String S) where
  replay_tail-since :
      (b : ParquetBackend S E) (m high : ℕ)
      → Climbs 0 high b.dir.lines
      → b.dir.manifest ≡ some m
      → replay_tail replay_into b.dir ≡ replay_all replay_into b.dir.files (since m b.dir.lines)
  unfolding replay_tail read_checkpoint_high_water
  replay_tail-since b m high h e = ground (arith, read_events_since-Climbs b.dir high m h)

  -- Where every line of the log decodes, the numbers go up, and there is a manifest, a load
  -- replays on the files the events above the manifest, in the order of the log, and gives the
  -- last number of the log, whatever the backend had as its mark.
  pub load-replay :
      (b : ParquetBackend S E) (m high : ℕ)
      → Climbs 0 high b.dir.lines
      → b.dir.manifest ≡ some m
      → (load replay_into b).0
        ≡ (replay_all replay_into b.dir.files (since m b.dir.lines) >>= λ s. ok (s, high))
  unfolding load read_checkpoint_high_water scan_high_water replay_all
  load-replay b m high h e =
      let last = scan_from-Climbs 0 high b.dir.lines h in
      let events = read_events_since-Climbs b.dir high m h in
      elim (Bool-cases (ltb m high)) [
        | inl behind ↦ ground (arith, last, replay_tail-since b m high h e)
        | inr level ↦
            let none_left : since m b.dir.lines ≡ [] =
              since-all 0 high m b.dir.lines h (ground arith) in
            ground (arith, last, none_left)
      ]

  module _ (b : ParquetBackend S E) (faults : Faults S E) (state : S) (epoch : ℕ) (event : E) where
    published :
        (n : ℕ)
        → faults.publishes ≡ true
        → (commit b faults state epoch event).0 ≡ ok n
        → (commit b faults state epoch event).1.dir.manifest ≡ some (next_seq b)
    unfolding commit
    published n p e = ground arith

    -- Where the log was sound and its numbers had not run out, a load after a commit that
    -- returned and wrote its manifest gives the committed state and its number, with nothing
    -- replayed.
    pub load-commit :
        (n : ℕ)
        → IsSound b
        → b.committed_seq + 1 < seq_bound
        → faults.publishes ≡ true
        → (commit b faults state epoch event).0 ≡ ok n
        → (load replay_into (commit b faults state epoch event).1).0 ≡ ok (state, n)
    unfolding replay_all
    load-commit n h room p e =
        let after = (commit b faults state epoch event).1 in
        let c = committed_event b epoch event in
        let (same, seq, files, lines) = commit_ok b faults state epoch event n e in
        let next : next_seq b ≡ b.committed_seq + 1 = omega (arith, room) in
        let longer : Climbs 0 (next_seq b) (add_line b.dir.lines (entry c)) =
          Climbs-add_line 0 b.committed_seq b.dir.lines c h (omega (arith, next)) in
        let sound : Climbs 0 (next_seq b) after.dir.lines =
          subst (λ ls. Climbs 0 (next_seq b) ls) (sym lines) longer in
        let none_left : since (next_seq b) after.dir.lines ≡ [] =
          since-all 0 (next_seq b) (next_seq b) after.dir.lines sound (omega arith) in
        load-replay after (next_seq b) (next_seq b) sound (published n p e)
        ∙ ground (arith, none_left, files, same)

    unpublished :
        (n : ℕ)
        → faults.publishes ≡ false
        → (commit b faults state epoch event).0 ≡ ok n
        → (commit b faults state epoch event).1.dir.manifest ≡ b.dir.manifest
    unfolding commit
    unpublished n p e = ground arith

    -- Where the log was sound, its numbers had not run out and the manifest was level with it, a
    -- load after a commit that returned but could not write its manifest replays the event on the
    -- committed state, and gives that state, if replaying the event there changes nothing.
    pub load-trailing :
        (n : ℕ)
        → IsSound b
        → b.committed_seq + 1 < seq_bound
        → b.dir.manifest ≡ some b.committed_seq
        → faults.publishes ≡ false
        → (commit b faults state epoch event).0 ≡ ok n
        → replay_into event state ≡ ok state
        → (load replay_into (commit b faults state epoch event).1).0 ≡ ok (state, n)
    unfolding replay_all
    load-trailing n h room m p e r =
        let after = (commit b faults state epoch event).1 in
        let c = committed_event b epoch event in
        let (same, seq, files, lines) = commit_ok b faults state epoch event n e in
        let next : next_seq b ≡ b.committed_seq + 1 = omega (arith, room) in
        let newer : b.committed_seq < next_seq b = omega (arith, next) in
        let longer : Climbs 0 (next_seq b) (add_line b.dir.lines (entry c)) =
          Climbs-add_line 0 b.committed_seq b.dir.lines c h newer in
        let sound : Climbs 0 (next_seq b) after.dir.lines =
          subst (λ ls. Climbs 0 (next_seq b) ls) (sym lines) longer in
        let tail : since b.committed_seq after.dir.lines ≡ c ∷ [] =
          ap (since b.committed_seq) lines
          ∙ since-add_line b.committed_seq 0 b.committed_seq b.dir.lines c h newer
          ∙ ap (λ cs. cs ++ c ∷ [])
              (since-all 0 b.committed_seq b.committed_seq b.dir.lines h (omega arith)) in
        load-replay after b.committed_seq (next_seq b) sound (unpublished n p e ∙ m)
        ∙ ground (arith, tail, files, r, same)

  -- A load after a crash between the barrier and the save of the checkpoint replays the one event
  -- on the state before it, so the write is not lost: for a sound log whose numbers have not run
  -- out, a manifest that was level with it, and an event that replays on that state.
  pub load-crash :
      (b : ParquetBackend S E) (epoch : ℕ) (event : E) (after : S)
      → IsSound b
      → b.committed_seq + 1 < seq_bound
      → b.dir.manifest ≡ some b.committed_seq
      → replay_into event b.dir.files ≡ ok after
      → let d = b.dir in
        let c = committed_event b epoch event in
        (load replay_into (record b { dir = record d { lines = add_line d.lines (entry c) } })).0
        ≡ ok (after, b.committed_seq + 1)
  unfolding replay_all
  load-crash b epoch event after h room m r =
      let d = b.dir in
      let c = committed_event b epoch event in
      let torn_dir = record b { dir = record d { lines = add_line d.lines (entry c) } } in
      let next : next_seq b ≡ b.committed_seq + 1 = omega (arith, room) in
      let newer : b.committed_seq < next_seq b = omega (arith, next) in
      let longer : Climbs 0 (next_seq b) (add_line d.lines (entry c)) =
        Climbs-add_line 0 b.committed_seq d.lines c h newer in
      let tail : since b.committed_seq (add_line d.lines (entry c)) ≡ c ∷ [] =
        since-add_line b.committed_seq 0 b.committed_seq d.lines c h newer
        ∙ ap (λ cs. cs ++ c ∷ [])
            (since-all 0 b.committed_seq b.committed_seq d.lines h (omega arith)) in
      load-replay torn_dir b.committed_seq (next_seq b) longer m ∙ ground (arith, tail, r, next)
