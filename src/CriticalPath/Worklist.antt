-- ===== src/CriticalPath/Worklist.antt =====
-- src/critical_path.rs: the routing of items by capability, and the worklists.
pub mod Fit
use arrow_kanban.Prelude.{
  ℕ, suc, ◌+◌, ◌≤◌, ◌≡◌, refl, ◌⊎◌, inl, inr, String, Bool, true, false, not, ◌&&◌, ◌||◌, Option,
  none, some, List, [], ◌∷◌, ◌++◌, ◌==◌, arith, any, keep, length, lookup, contains, All,
  if◌then◌else◌, ltb, leb, eqb, Bool-cases, Option-cases, All-append, eq_refl,
}
use arrow_kanban.CriticalPath.{ItemInfo, or_zero}
use arrow_kanban.CriticalPath.Keys.{sort_by, insert_by, key_le, key_of, item_of, truncate}
use arrow_kanban.CriticalPath.Analysis.{CriticalPathResult}

pub record CapabilityRouting : Type 0 where
  pub item_requirements : List (String × List String)
  pub agent_capabilities : List (String × List String)

-- `reqs.iter().all(|c| provided.contains(c))`
abbrev pub all_in : List String → List String → Bool
all_in [] provided = true
all_in (c ∷ reqs) provided = contains provided c && all_in reqs provided

unfoldable pub agent_can_take : CapabilityRouting → String → String → Bool
agent_can_take r item_id agent = elim r.agent_capabilities [
  | [] ↦ true
  | _ ∷ _ ↦ elim (lookup item_id r.item_requirements) [
    | none ↦ true
    | some [] ↦ true
    | some (c ∷ reqs) ↦ elim (lookup agent r.agent_capabilities) [
      | some provided ↦ all_in (c ∷ reqs) provided
      | none ↦ false
    ]
  ]
]

pub record WorklistItem : Type 0 where
  pub id : String
  pub title : String
  pub blocked : Bool

pub record WorklistEntry : Type 0 where
  pub agent : String
  pub items : List WorklistItem

-- `in_progress`: the last item in progress of an assignee.
unfoldable pub in_progress : List ItemInfo → String → Option String
in_progress [] agent = none
in_progress (i ∷ items) agent = elim (in_progress items agent) [
  | some id ↦ some id
  | none ↦
      if i.status == "in_progress" && not (i.assignee == "-") && i.assignee == agent
      then some i.id
      else none
]

-- The tests that ready and blocked items alike must pass to be suitable for an agent.
unfoldable pub is_suitable : List ItemInfo → CapabilityRouting → String → String → Bool
unfolding item_of agent_can_take
is_suitable items routing agent id = elim (item_of items id) [
  | none ↦ false
  | some i ↦
      i.status == "backlog"
      && not (not (i.assignee == "-") && not (i.assignee == agent))
      && agent_can_take routing i.id agent
]

abbrev pub is_assigned : List ItemInfo → String → String → Bool
is_assigned items agent id = elim (item_of items id) [ some i ↦ i.assignee == agent | none ↦ false ]

-- `sort_by`: own items first, then by sort key, then those with more items downstream.
abbrev pub work_le : List ItemInfo → CriticalPathResult → String → String → String → Bool
work_le items cp agent a b =
    let first = is_assigned items agent a in
    let second = is_assigned items agent b in
    if first && not second
    then true
    else if second && not first
    then false
    else if not (key_le (key_of items b) (key_of items a))
    then true
    else if not (key_le (key_of items a) (key_of items b))
    then false
    else leb (or_zero (cp.downstream_count b)) (or_zero (cp.downstream_count a))

abbrev pub work_item : List ItemInfo → Bool → String → List WorklistItem
work_item items blocked id = elim (item_of items id) [
  | some i ↦ record { id = id; title = truncate i.title 40; blocked = blocked } ∷ []
  | none ↦ []
]

-- `current`: the item that the agent has in progress.
unfoldable pub current_work : List ItemInfo → String → List WorklistItem
unfolding in_progress truncate item_of
current_work items agent = elim (in_progress items agent) [
  | some id ↦ work_item items false id
  | none ↦ []
]

-- The loop over the suitable items, up to the limit.
unfoldable pub fill_ready :
    List ItemInfo → List String → ℕ → List String → List WorklistItem → List WorklistItem
unfolding truncate item_of
fill_ready items blocked limit [] work = work
fill_ready items blocked limit (id ∷ ids) work =
    let rest =
      fill_ready items blocked limit ids (work ++ work_item items (contains blocked id) id) in
    if leb limit (length work) then work else rest

-- The loop over the blocked items, up to the limit.
unfoldable pub fill_blocked :
    List ItemInfo
    → CapabilityRouting
    → String
    → ℕ
    → List String
    → List WorklistItem
    → List WorklistItem
unfolding is_suitable truncate item_of
fill_blocked items routing agent limit [] work = work
fill_blocked items routing agent limit (id ∷ ids) work =
    let rest =
      fill_blocked items routing agent limit ids
        (if is_suitable items routing agent id then work ++ work_item items true id else work) in
    if leb limit (length work) then work else rest

unfoldable pub work_of :
    List ItemInfo → CriticalPathResult → CapabilityRouting → ℕ → String → WorklistEntry
unfolding current_work fill_ready fill_blocked is_suitable key_of
work_of items cp routing limit agent =
    let available =
      sort_by (work_le items cp agent) (keep (is_suitable items routing agent) cp.ready) in
    record {
      agent = agent;
      items =
          fill_blocked items routing agent limit cp.blocked
            (fill_ready items cp.blocked limit available (current_work items agent));
    }

unfoldable pub generate_worklist :
    List ItemInfo → CriticalPathResult → List String → CapabilityRouting → ℕ → List WorklistEntry
unfolding work_of
generate_worklist items cp [] routing limit = []
generate_worklist items cp (agent ∷ agents) routing limit =
    work_of items cp routing limit agent ∷ generate_worklist items cp agents routing limit
