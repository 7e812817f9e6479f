-- ===== src/Replica/Levels.antt =====
-- server/src/replica.rs: a poll of a source that answers.
use arrow_kanban.Prelude.{
  ℕ, ◌+◌, ◌%◌, ◌<◌, ◌≤◌, ◌≡◌, ◌≢◌, refl, ap, ◌∙◌, String, true, Option, none, some, List, [], ◌∷◌,
  arith, inl, inr, ok, err, Option-cases, Bool-cases, All, eqb,
}
use arrow_kanban.Crud.{Env}
use arrow_kanban.Storage.{seq_bound}
use arrow_kanban.Events.Effects.{Stores, replay_into}
use arrow_kanban.Replica.{
  schema_version, GapReason, ReplicaState, AggregateSnapshot, EngineExtension, Answers, Replica,
  mark_confirmed, read, detect_gap,
}
use arrow_kanban.Replica.Gaps.{Follows, Rises, detect_gap-none, epoch_regression-none}
use arrow_kanban.Replica.Poll.{
  Event, Outcome, publish, seed_extension, take_up, confirm_seeded, bootstrap_state, apply_event,
  apply_events, publish_applied, after_bootstrap, resync, confirm_applied, catch_up, poll,
}
use arrow_kanban.Replica.Mirror.{
  OnOk, IsCanonical, IsImage, Mirrors, apply_event-keeps, apply_event-stores, at_previous,
}
use arrow_kanban.Replica.Mirror.Polls.{poll-Mirrors}
use arrow_kanban.Replica.Reads.{poll-clean}

module _ {X P B D : Type 0} (methods : EngineExtension X P B D) (lookup : String → Option String)
    (envs : ℕ → ℕ → Env) where
  -- The last position of a tail, or `seq` if it is empty.
  abbrev pub reached : ℕ → List (Event methods lookup envs) → ℕ
  reached seq [] = seq
  reached seq (c ∷ cs) = reached c.seq cs

  reached-full :
      (s t : ℕ) (cs : List (Event methods lookup envs)) → cs ≢ [] → reached s cs ≡ reached t cs
  reached-full s t [] h = absurd (h refl)
  reached-full s t (c ∷ cs) h = refl

  -- Without an extension a re-bootstrap takes up the snapshot of the source whole.
  resync-open :
      (a : Answers P B D) (reason : GapReason) (canonical : ℕ) (r : Replica X B)
      (snap : AggregateSnapshot B)
      → r.extension ≡ none
      → a.bootstrap ≡ ok snap
      → snap.schema ≡ schema_version
      → let (done, r') = resync methods lookup envs a reason canonical r in
        (done ≡ ok tt)
        × (r'.last_confirmed_at ≡ a.now)
        × (r'.state ≡ ReplicaState.live)
        × (r'.snapshot.seq ≡ snap.seq)
  unfolding resync bootstrap_state seed_extension confirm_seeded take_up after_bootstrap publish
      mark_confirmed
  resync-open a reason canonical r snap bare answered same = ground arith

  module _ (state_at : ℕ → Stores) where
    apply_event-open :
        (c : Event methods lookup envs) (r : Replica X B)
        → r.extension ≡ none
        → c.seq ≡ (r.seq + 1) % seq_bound
        → IsCanonical methods lookup envs state_at c
        → Mirrors methods lookup envs state_at r
        → let (done, r') = apply_event methods lookup envs c r in
          (done ≡ ok tt) × (r'.extension ≡ none)
    unfolding apply_event
    apply_event-open c r bare f h m = ground (
      arith,
      ap (λ d. (replay_into lookup (envs c.seq) c.event d).0)
          (at_previous methods lookup envs state_at c r f h m),
      h.2,
    )

    apply_events-open :
        (cs : List (Event methods lookup envs)) (r : Replica X B)
        → r.extension ≡ none
        → Follows r.seq cs
        → All (IsCanonical methods lookup envs state_at) cs
        → Mirrors methods lookup envs state_at r
        → let (done, r') = apply_events methods lookup envs cs r in
          (done ≡ ok tt) × (r'.seq ≡ reached r.seq cs)
    unfolding apply_events
    apply_events-open [] r bare f h m = (refl, refl)
    apply_events-open (c ∷ cs) r bare f h m =
        let (done, still) = apply_event-open c r bare f.0 h.0 m in
        let r' = (apply_event methods lookup envs c r).1 in
        rw (done, apply_events)
          (apply_events-open cs (record r' { seq = c.seq; last_epoch = c.epoch }) still f.1 h.1
            (record {
              ranged = h.0.1;
              holds = apply_event-stores methods lookup envs state_at c r f.0 h.0 m;
              shows = rw ((apply_event-keeps methods lookup envs state_at c r).0) m.shows;
            }))

    poll-levels_gap :
        (a : Answers P B D) (r : Replica X B) (c : ℕ) {snap : AggregateSnapshot B}
        {tail : List (Event methods lookup envs)} {reason : GapReason}
        → r.extension ≡ none
        → r.detect_gaps ≡ true
        → a.canonical_committed_seq ≡ ok c
        → r.seq < c
        → a.events_since r.seq ≡ ok tail
        → detect_gap tail r.seq ≡ some reason
        → a.bootstrap ≡ ok snap
        → snap.schema ≡ schema_version
        → poll methods lookup envs a r ≡ resync methods lookup envs a reason c r
    unfolding poll catch_up
    poll-levels_gap a r c bare armed at_c behind fetched hole answered same = ground arith

    applied-levels :
        (now : ℕ) (o : Outcome methods lookup envs)
        → o.0 ≡ ok tt
        → let (done, r') =
            confirm_applied methods lookup envs now (publish_applied methods lookup envs o) in
          (done ≡ ok tt)
          × (r'.last_confirmed_at ≡ now)
          × (r'.state ≡ ReplicaState.live)
          × (r'.snapshot.seq ≡ o.1.seq)
    unfolding confirm_applied publish_applied publish mark_confirmed
    applied-levels now (ok tt, r) h = (refl, refl, refl, refl)
    applied-levels now (err e, r) h = cc

    -- What a poll leaves behind that confirms the replica at position `c`.
    abbrev IsLevel : ℕ → ℕ → Outcome methods lookup envs → Type 0
    IsLevel now c (done, r') =
        (done ≡ ok tt)
        × (r'.last_confirmed_at ≡ now)
        × (r'.state ≡ ReplicaState.live)
        × (r'.snapshot.seq ≡ c)

    poll-IsLevel :
        (a : Answers P B D) (r : Replica X B) (c : ℕ) {snap : AggregateSnapshot B}
        {tail : List (Event methods lookup envs)}
        → r.extension ≡ none
        → r.detect_gaps ≡ true
        → r.snapshot.seq ≡ r.seq
        → Mirrors methods lookup envs state_at r
        → a.canonical_committed_seq ≡ ok c
        → r.seq ≤ c
        → a.events_since r.seq ≡ ok tail
        → All (IsCanonical methods lookup envs state_at) tail
        → Rises r.last_epoch tail
        → reached c tail ≡ c
        → a.bootstrap ≡ ok snap
        → snap.schema ≡ schema_version
        → snap.seq ≡ c
        → IsLevel a.now c (poll methods lookup envs a r)
    poll-IsLevel a r c {snap} {tail} bare armed shown m at_c ahead fetched canonical rises ends
          answered same there =
        elim (Bool-cases (eqb c r.seq)) [
          | inl level ↦ unfold poll mark_confirmed in ground arith
          | inr behind ↦
              let below : r.seq < c = ground arith in
              elim (Option-cases (detect_gap tail r.seq)) [
                | inr (reason, hole) ↦
                    let run =
                      poll-levels_gap a r c bare armed at_c below fetched hole answered same in
                    rw run (ground (arith, resync-open a reason c r snap bare answered same))
                | inl clean ↦
                    let (full, follows) = (detect_gap-none tail r.seq).0 clean in
                    let (done, moved) = apply_events-open tail r bare follows canonical m in
                    let last : (apply_events methods lookup envs tail r).1.seq ≡ c =
                      moved ∙ reached-full r.seq c tail full ∙ ends in
                    let run =
                      poll-clean methods lookup envs a r c at_c below fetched clean
                        ((epoch_regression-none r.last_epoch tail).1 rises) in
                    let level =
                      applied-levels a.now (apply_events methods lookup envs tail r) done in
                    rw run (level.0, level.1, level.2, level.3 ∙ last)
              ]
        ]

    -- One poll of a reachable source brings a replica level with it, whether it was live, resyncing
    -- or closed. The replica has no extension, its gap guard is on, its published snapshot is at
    -- its own position, and that position is at most the source's, `c`. If the replica and the
    -- answers (a tail up to `c` whose epochs do not fall, and a snapshot at `c` under this table
    -- contract) are of one history, then the poll succeeds and confirms the replica at the time of
    -- the poll, and a reader gets the state of the history at `c`.
    pub read-poll_reachable :
        (a : Answers P B D) (r : Replica X B) (c t : ℕ) {snap : AggregateSnapshot B}
        {tail : List (Event methods lookup envs)}
        → r.extension ≡ none
        → r.detect_gaps ≡ true
        → r.snapshot.seq ≡ r.seq
        → Mirrors methods lookup envs state_at r
        → a.canonical_committed_seq ≡ ok c
        → r.seq ≤ c
        → a.events_since r.seq ≡ ok tail
        → All (IsCanonical methods lookup envs state_at) tail
        → Rises r.last_epoch tail
        → reached c tail ≡ c
        → a.bootstrap ≡ ok snap
        → IsImage methods lookup envs state_at snap
        → snap.schema ≡ schema_version
        → snap.seq ≡ c
        → let (done, r') = poll methods lookup envs a r in
          (done ≡ ok tt)
          × (r'.last_confirmed_at ≡ a.now)
          × (read t r' ≡ ok r'.snapshot)
          × (r'.snapshot.seq ≡ c)
          × (r'.snapshot.stores ≡ state_at c)
    unfolding read
    read-poll_reachable a r c t bare armed shown m at_c ahead fetched canonical rises ends answered
          image same there =
        let (done, confirmed, lives, shows) =
          poll-IsLevel a r c bare armed shown m at_c ahead fetched canonical rises ends answered
            same there in
        let honest : OnOk (All (IsCanonical methods lookup envs state_at)) (a.events_since r.seq) =
          rw fetched canonical in
        let pictured : OnOk (IsImage methods lookup envs state_at) a.bootstrap =
          rw answered image in
        let kept = poll-Mirrors methods lookup envs state_at a r armed honest pictured m in
        (done, confirmed, rw (lives, read) refl, shows, kept.shows ∙ ap state_at shows)
