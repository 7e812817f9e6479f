-- ===== src/Handlers/Updating/Refusals.antt =====
-- server/src/handlers/core.rs: an update that is refused before anything is written.
use arrow_kanban.Prelude.{
  ℕ, ◌≡◌, String, Bool, true, false, Option, none, some, List, arith, err, is_ok, Result-cases, inl,
  inr,
}
use arrow_kanban.Crud.{KanbanStore, Env, Action}
use arrow_kanban.Crud.Rows.{get_item}
use arrow_kanban.Crud.Fields.{
  update_title, update_priority, update_assignee, update_tags, update_body, update_related,
  update_depends_on,
}
use arrow_kanban.Events.Effects.{Stores}
use arrow_kanban.RelationVocab.{Predicate, EntityClass}
use arrow_kanban.Handlers.{Refusal, store_refused, Handler, ◌>>=◌, asks, given}
use arrow_kanban.Handlers.Relating.{Edges}
use arrow_kanban.Handlers.Updating.{
  UpdateRequest, given_list, write_fields, write_update, validate_update, handle_update_typed,
}

-- A refusal that comes before anything is written.
abbrev pub is_early : Refusal → Bool
is_early (store_refused code x) = false
is_early _ = true

-- What refuses only with an error of the store.
abbrev IsLate : {A : Type 0} → Handler A → Type 0
IsLate m = (s : KanbanStore) (x : Refusal) → (m s).0 ≡ err x → is_early x ≡ false

IsLate-asks : {A : Type 0} (code : String) (m : Action A) → IsLate (asks code m)
IsLate-asks code m s x h = elim (Result-cases (m s).0) [
  | inl (a, done) ↦ absurd (ground arith)
  | inr (e, failed) ↦ ground arith
]

IsLate-bind :
    {A B : Type 0} (m : Handler A) (k : A → Handler B)
    → IsLate m
    → ((a : A) → IsLate (k a))
    → IsLate (m >>= k)
IsLate-bind m k hm hk s x h = elim (Result-cases (m s).0) [
  | inl (a, done) ↦ hk a (m s).1 x (ground arith)
  | inr (e, failed) ↦ hm s x (ground arith)
]

IsLate-given :
    (o : Option String) (m : String → Action Unit)
    → IsLate (given o (λ v. asks "UPDATE_FAILED" (m v)))
IsLate-given none m s x e = absurd (ground arith)
IsLate-given (some v) m s x e = IsLate-asks "UPDATE_FAILED" (m v) s x e

IsLate-given_list :
    (o : Option (List String)) (m : List String → Action Unit)
    → IsLate (given_list o (λ v. asks "UPDATE_FAILED" (m v)))
IsLate-given_list none m s x e = absurd (ground arith)
IsLate-given_list (some v) m s x e = IsLate-asks "UPDATE_FAILED" (m v) s x e

IsLate-then : (m k : Handler Unit) → IsLate m → IsLate k → IsLate (m >>= (λ _. k))
IsLate-then m k hm hk = IsLate-bind m (λ _. k) hm (λ _. hk)

IsLate-write_fields : (envs : ℕ → Env) (req : UpdateRequest) → IsLate (write_fields envs req)
unfolding write_fields
IsLate-write_fields envs req =
    IsLate-then _ _ (IsLate-given req.title (update_title (envs 0) req.id)) (
      IsLate-then _ _ (IsLate-given req.priority (λ v. update_priority (envs 1) req.id (some v))) (
        IsLate-then _ _ (IsLate-given req.assignee (λ v. update_assignee req.id (some v))) (
          IsLate-then _ _ (IsLate-given_list req.tags (update_tags (envs 2) req.id)) (
            IsLate-then _ _ (IsLate-given req.body (λ v. update_body (envs 3) req.id (some v))) (
              IsLate-then _ _ (IsLate-given_list req.related (update_related (envs 4) req.id))
                (IsLate-given_list req.depends_on (update_depends_on (envs 5) req.id)))))))

module _ (predicates : List Predicate) (classes : List EntityClass) where
  write_update-late :
      (envs : ℕ → Env) (req : UpdateRequest) (is_item : Bool) (add_edges del_edges : Edges)
      (d : Stores) (x : Refusal)
      → (write_update predicates classes envs req is_item add_edges del_edges d).0 ≡ err x
      → is_early x ≡ false
  unfolding write_update
  write_update-late envs req is_item add_edges del_edges d x h =
      elim (Result-cases (write_fields envs req d.store).0) [
        | inl (a, written) ↦ absurd (ground arith)
        | inr (y, refused) ↦ IsLate-write_fields envs req d.store x (ground arith)
      ]

  -- An update that is refused for its edges or its subject has changed neither the items nor the
  -- relations.
  pub handle_update_typed-refused :
      (envs : ℕ → Env) (req : UpdateRequest) (d : Stores) (x : Refusal)
      → (handle_update_typed predicates classes envs req d).0 ≡ err x
      → is_early x ≡ true
      → (handle_update_typed predicates classes envs req d).1 ≡ d
  unfolding handle_update_typed
  handle_update_typed-refused envs req d x h early =
      elim (Result-cases
        (validate_update predicates classes req (is_ok (get_item d.store req.id)))) [
          | inr (y, refused) ↦ ground arith
          | inl (edges, valid) ↦
              let late : is_early x ≡ false =
                write_update-late envs req (is_ok (get_item d.store req.id)) edges.0 edges.1 d x
                  (ground arith) in
              absurd (ground arith)
        ]
