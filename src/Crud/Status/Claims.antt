-- ===== src/Crud/Status/Claims.antt =====
-- src/crud.rs: the exclusive claim.
use arrow_kanban.Prelude.{
  String, ◌≡◌, ◌≢◌, Bool, true, false, ◌↔◌, ◌⊎◌, inl, inr, none, some, arith, ◌==◌, eq_iff, ok, err,
  Option-cases, Bool-cases,
}
use arrow_kanban.Crud.{Item, KanbanStore, claim_conflict}
use arrow_kanban.Crud.Rows.{get_item, live}
use arrow_kanban.Crud.Status.{assignee_of, status_and_assignee, check_exclusive_claim}

module _ (s : KanbanStore) (id agent : String) (forced : Bool) (row : Item) where
  -- On a live item a claim is refused exactly if it is not forced, and the item is in progress under
  -- another, nonempty name.
  pub check_exclusive_claim-conflict_iff :
      (current : String)
      → live s id ≡ some row
      → (check_exclusive_claim s id agent forced ≡ err (claim_conflict id current agent)) ↔ (
          (forced ≡ false)
          × (row.status ≡ "in_progress")
          × (assignee_of row ≡ some current)
          × (current ≢ agent))
  unfolding check_exclusive_claim status_and_assignee get_item
  check_exclusive_claim-conflict_iff current h = elim (Option-cases (assignee_of row)) [
    | inl free ↦ (λ c. ground arith, λ (f, p, a, n). ground arith)
    | inr (c, held) ↦ (
      λ e. (
        ground arith,
        ground (arith, eq_iff row.status "in_progress"),
        ground arith,
        λ same. ground (arith, eq_iff c agent),
      ),
      λ (f, p, a, n). ground (arith, eq_iff row.status "in_progress", eq_iff c agent),
    )
  ]

  -- On a live item a claim is granted exactly if it is forced, the item is not in progress, or nobody
  -- or the claimant has it.
  pub check_exclusive_claim-ok_iff :
      live s id ≡ some row
      → (check_exclusive_claim s id agent forced ≡ ok tt) ↔ (
          (forced ≡ true)
          ⊎ (row.status ≢ "in_progress")
          ⊎ (assignee_of row ≡ none)
          ⊎ (assignee_of row ≡ some agent))
  unfolding check_exclusive_claim status_and_assignee get_item
  check_exclusive_claim-ok_iff h = elim (Option-cases (assignee_of row)) [
    | inl free ↦ (λ c. inr (inr (inl free)), λ d. ground arith)
    | inr (c, held) ↦ (
      λ e. elim (Bool-cases (row.status == "in_progress")) [
        | inl p ↦ ground (arith, eq_iff c agent)
        | inr p ↦ inr (inl (λ q. ground (arith, eq_iff row.status "in_progress")))
      ],
      λ d. ground (arith, eq_iff row.status "in_progress", eq_iff c agent),
    )
  ]
