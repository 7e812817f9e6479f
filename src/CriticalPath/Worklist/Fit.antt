-- ===== src/CriticalPath/Worklist/Fit.antt =====
-- src/critical_path.rs: what a worklist gives to an agent.
use arrow_kanban.Prelude.{
  ℕ, suc, ◌≤◌, ◌≡◌, ◌⊎◌, inl, inr, String, Bool, true, false, none, some, List, [], ◌∷◌, ◌++◌,
  arith, keep, length, contains, All, leb, Bool-cases, Option-cases, All-append, eq_iff,
  length-append, zero,
}
use arrow_kanban.CriticalPath.{ItemInfo}
use arrow_kanban.CriticalPath.Keys.{sort_by, insert_by, item_of, truncate}
use arrow_kanban.CriticalPath.Analysis.{CriticalPathResult}
use arrow_kanban.CriticalPath.Worklist.{
  CapabilityRouting, WorklistItem, WorklistEntry, agent_can_take, in_progress, is_suitable, work_le,
  work_item, current_work, fill_ready, fill_blocked, work_of, generate_worklist,
}

-- A sort keeps what holds of each element.
insert_by-All {ℓ} :
    {A : Type 0} (P : A → Type ℓ) (le : A → A → Bool) (x : A) (xs : List A)
    → P x
    → All P xs
    → All P (insert_by le x xs)
insert_by-All P le x [] p h = (p, tt)
insert_by-All P le x (y ∷ ys) p h = elim (Bool-cases (le x y)) [
  | inl t ↦ rw t (p, h)
  | inr f ↦ rw f (h.0, insert_by-All P le x ys p h.1)
]

sort_by-All {ℓ} :
    {A : Type 0} (P : A → Type ℓ) (le : A → A → Bool) (xs : List A)
    → All P xs
    → All P (sort_by le xs)
sort_by-All P le [] h = tt
sort_by-All P le (x ∷ xs) h = insert_by-All P le x (sort_by le xs) h.0 (sort_by-All P le xs h.1)

keep-All : (p : String → Bool) (xs : List String) → All (λ x. p x ≡ true) (keep p xs)
keep-All p [] = tt
keep-All p (x ∷ xs) = elim (Bool-cases (p x)) [
  | inl t ↦ rw t (t, keep-All p xs)
  | inr f ↦ rw f (keep-All p xs)
]

module _ (items : List ItemInfo) (routing : CapabilityRouting) where
  -- An item in the backlog that is nobody's or the agent's own, and that the agent can take.
  pub record IsFit (agent id : String) : Type 0 where
    pub item : ItemInfo
    pub found : item_of items id ≡ some item
    pub waiting : item.status ≡ "backlog"
    pub free : (item.assignee ≡ "-") ⊎ (item.assignee ≡ agent)
    pub able : agent_can_take routing item.id agent ≡ true

  abbrev pub MayHave : String → WorklistItem → Type 0
  MayHave agent w = (in_progress items agent ≡ some w.id) ⊎ IsFit agent w.id

  is_suitable-IsFit :
      (agent id : String) → is_suitable items routing agent id ≡ true → IsFit agent id
  unfolding is_suitable
  is_suitable-IsFit agent id h = elim (Option-cases (item_of items id)) [
    | inl e ↦ absurd (ground arith)
    | inr (i, e) ↦ record {
      item = i;
      found = e;
      waiting = ground (arith, eq_iff i.status "backlog");
      free = ground (arith, eq_iff i.assignee "-", eq_iff i.assignee agent);
      able = ground arith;
    }
  ]

  work_item-MayHave :
      (agent : String) (blocked : Bool) (id : String)
      → (in_progress items agent ≡ some id) ⊎ IsFit agent id
      → All (MayHave agent) (work_item items blocked id)
  work_item-MayHave agent blocked id h =
      elim (item_of items id)
        as (λ o. All (MayHave agent) (elim o [
          | some i ↦ record { id = id; title = truncate i.title 40; blocked = blocked } ∷ []
          | none ↦ []
        ])) [ none ↦ tt | some i ↦ (h, tt) ]

  fill_ready-MayHave :
      (agent : String) (blocked : List String) (limit : ℕ) (ids : List String)
      (work : List WorklistItem)
      → All (λ id. is_suitable items routing agent id ≡ true) ids
      → All (MayHave agent) work
      → All (MayHave agent) (fill_ready items blocked limit ids work)
  unfolding fill_ready
  fill_ready-MayHave agent blocked limit [] work s h = h
  fill_ready-MayHave agent blocked limit (id ∷ ids) work s h =
      let more =
        All-append (MayHave agent) work (work_item items (contains blocked id) id) h (
          work_item-MayHave agent (contains blocked id) id
            (inr (is_suitable-IsFit agent id s.0))) in
      elim (Bool-cases (leb limit (length work))) [
        | inl full ↦ rw full h
        | inr room ↦ rw room (fill_ready-MayHave agent blocked limit ids _ s.1 more)
      ]

  fill_blocked-MayHave :
      (agent : String) (limit : ℕ) (ids : List String) (work : List WorklistItem)
      → All (MayHave agent) work
      → All (MayHave agent) (fill_blocked items routing agent limit ids work)
  unfolding fill_blocked
  fill_blocked-MayHave agent limit [] work h = h
  fill_blocked-MayHave agent limit (id ∷ ids) work h = elim (Bool-cases (leb limit (length work))) [
    | inl full ↦ rw full h
    | inr room ↦ elim (Bool-cases (is_suitable items routing agent id)) [
      | inl fit ↦
          let more =
            All-append (MayHave agent) work (work_item items true id) h
              (work_item-MayHave agent true id (inr (is_suitable-IsFit agent id fit))) in
          rw (room, fit) (fill_blocked-MayHave agent limit ids _ more)
      | inr unfit ↦ rw (room, unfit) (fill_blocked-MayHave agent limit ids work h)
    ]
  ]

  current_work-MayHave : (agent : String) → All (MayHave agent) (current_work items agent)
  unfolding current_work
  current_work-MayHave agent = elim (Option-cases (in_progress items agent)) [
    | inl e ↦ rw (e, current_work) tt
    | inr (id, e) ↦ rw (e, current_work) (work_item-MayHave agent false id (inl e))
  ]

  -- How long the list of work is: one item more at most for each step below the limit.
  length-work_item : (blocked : Bool) (id : String) → length (work_item items blocked id) ≤ 1
  length-work_item blocked id = ground arith

  -- The limit, or 1 where the item in progress alone is over it.
  abbrev pub limit_of : ℕ → ℕ
  limit_of zero = 1
  limit_of (suc n) = suc n

  limit_of-le : (limit : ℕ) → limit ≤ limit_of limit
  limit_of-le zero = omega arith
  limit_of-le (suc n) = omega arith

  one-le : (limit : ℕ) → 1 ≤ limit_of limit
  one-le zero = omega arith
  one-le (suc n) = omega arith

  fill_ready-bounded :
      (blocked : List String) (limit : ℕ) (ids : List String) (work : List WorklistItem)
      → length work ≤ limit_of limit
      → length (fill_ready items blocked limit ids work) ≤ limit_of limit
  unfolding fill_ready
  fill_ready-bounded blocked limit [] work h = h
  fill_ready-bounded blocked limit (id ∷ ids) work h = ground (
    arith,
    length-append work (work_item items (contains blocked id) id),
    length-work_item (contains blocked id) id,
    limit_of-le limit,
    fill_ready-bounded blocked limit ids (work ++ work_item items (contains blocked id) id),
  )

  fill_blocked-bounded :
      (agent : String) (limit : ℕ) (ids : List String) (work : List WorklistItem)
      → length work ≤ limit_of limit
      → length (fill_blocked items routing agent limit ids work) ≤ limit_of limit
  unfolding fill_blocked
  fill_blocked-bounded agent limit [] work h = h
  fill_blocked-bounded agent limit (id ∷ ids) work h = ground (
    arith,
    length-append work (work_item items true id),
    length-work_item true id,
    limit_of-le limit,
    fill_blocked-bounded agent limit ids (work ++ work_item items true id),
    fill_blocked-bounded agent limit ids work,
  )

  length-current_work : (agent : String) → length (current_work items agent) ≤ 1
  unfolding current_work
  length-current_work agent = elim (Option-cases (in_progress items agent)) [
    | inl e ↦ rw (e, current_work) (omega arith)
    | inr (id, e) ↦ rw (e, current_work) (length-work_item false id)
  ]

  module _ (cp : CriticalPathResult) (limit : ℕ) where
    -- What the worklist of one agent holds.
    abbrev pub IsRouted : WorklistEntry → Type 0
    IsRouted e = All (MayHave e.agent) e.items × (length e.items ≤ limit_of limit)

    work_of-IsRouted : (agent : String) → IsRouted (work_of items cp routing limit agent)
    unfolding work_of
    work_of-IsRouted agent =
        let suitable = is_suitable items routing agent in
        let available = sort_by (work_le items cp agent) (keep suitable cp.ready) in
        let work = fill_ready items cp.blocked limit available (current_work items agent) in
        (
          fill_blocked-MayHave agent limit cp.blocked work (
              fill_ready-MayHave agent cp.blocked limit available (current_work items agent)
                (sort_by-All (λ id. suitable id ≡ true) (work_le items cp agent)
                  (keep suitable cp.ready) (keep-All suitable cp.ready))
                (current_work-MayHave agent)),
          fill_blocked-bounded agent limit cp.blocked work (
              fill_ready-bounded cp.blocked limit available (current_work items agent)
                (omega (arith, length-current_work agent, one-le limit))),
        )

    -- In every worklist, each item is the one that its agent has in progress, or one in the backlog
    -- that is nobody's or the agent's own and whose required capabilities the routing grants the
    -- agent; and a list holds no more items than the limit, or one where the limit is 0.
    pub generate_worklist-IsRouted :
        (agents : List String) → All IsRouted (generate_worklist items cp agents routing limit)
    unfolding generate_worklist
    generate_worklist-IsRouted [] = tt
    generate_worklist-IsRouted (agent ∷ agents) =
        (work_of-IsRouted agent, generate_worklist-IsRouted agents)
