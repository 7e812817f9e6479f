-- ===== src/Crud/Calls/Keeping.antt =====
-- src/crud.rs: no method makes two live rows of one id out of one.
use text.Mathlib.Text.{starts_with}
use arrow_kanban.Prelude.{
  ℕ, ◌≤◌, String, ◌≡◌, refl, Bool, true, false, not, Option, none, some, inl, inr, List, [], ◌∷◌,
  ◌++◌, arith, ◌==◌, count, contains, if◌then◌else◌, Result, ok, err, Bool-cases, keep, eqb, length,
}
use arrow_kanban.Prelude.Int.{ℤ, pos, leb_ℤ}
use arrow_kanban.StateMachine.{is_terminal_state}
use arrow_kanban.Crud.{
  Item, Comment, KanbanStore, CrudError, Env, later, Action, pure, throw, reads, continue, ◌>>=◌,
  ◌>>◌,
}
use arrow_kanban.Crud.Rows.{is_live, update_item, get_item, modify}
use arrow_kanban.Crud.Rows.Laws.{Keeps}
use arrow_kanban.Crud.Fields.{
  ListColumn, add_to_list_field, remove_from_list_field, update_list_field, touch_updated_at,
  nonblank, put_list, get_list_field, attempt_count,
}
use arrow_kanban.Crud.Fields.Laws.{
  Edit, run_edit, edit_row, run_edit-modify, Keeps-edit_row, Keeps-put_list,
}
use arrow_kanban.Crud.Status.{
  status_of, record_run, clear_closure, update_status, requeue_item, requeue_claimed, release,
  delete_item,
}
use arrow_kanban.Crud.Comments.{add_comment, push_comment, next_comment_id, new_comment}
use arrow_kanban.Crud.Ratify.{ratify_phase, collect, remaining, strip_all, strip_one, start_voyage}

-- How many live rows a table has of an id.
abbrev pub live_count : String → List Item → ℕ
live_count j rows = count (is_live j) rows

-- At most one live row of each id.
abbrev pub IsUnique : KanbanStore → Type 0
IsUnique s = (j : String) → live_count j s.items ≤ 1

-- An action after which the ids are unique if they were before.
pub record Preserves {A : Type 0} (m : Action A) : Type 0 where
  pub keeps : (s : KanbanStore) → IsUnique s → IsUnique (m s).1

module _ {A B : Type 0} where
  Preserves-continue :
      (r : Result CrudError A) (f : A → Action B)
      → ((a : A) → Preserves (f a))
      → (s : KanbanStore) → IsUnique s
      → IsUnique (continue r f s).1
  Preserves-continue (ok a) f p s u = (p a).keeps s u
  Preserves-continue (err x) f p s u = u

  Preserves-bind :
      (m : Action A) (f : A → Action B)
      → Preserves m
      → ((a : A) → Preserves (f a))
      → Preserves (m >>= f)
  Preserves-bind m f p q = record {
    keeps = λ s u. Preserves-continue (m s).0 f q (m s).1 (p.keeps s u);
  }

  Preserves-then : (m : Action A) (k : Action B) → Preserves m → Preserves k → Preserves (m >> k)
  Preserves-then m k p q = Preserves-bind m (λ _. k) p (λ _. q)

Preserves-if :
    {A : Type 0} (b : Bool) (m k : Action A)
    → Preserves m
    → Preserves k
    → Preserves (if b then m else k)
Preserves-if true m k p q = p
Preserves-if false m k p q = q

Preserves-pure : {A : Type 0} (a : A) → Preserves (pure a)
Preserves-pure a = record { keeps = λ s u. u }

Preserves-reads : {A : Type 0} (f : KanbanStore → Result CrudError A) → Preserves (reads f)
Preserves-reads f = record { keeps = λ s u. u }

Preserves-throw : (A : Type 0) (x : CrudError) → Preserves (throw {A = A} x)
Preserves-throw A x = record { keeps = λ s u. u }

live_count-update_item :
    (id j : String) (f : Item → Item) (rows : List Item)
    → Keeps f
    → live_count j (update_item id f rows) ≡ live_count j rows
unfolding update_item
live_count-update_item id j f [] k = refl
live_count-update_item id j f (row ∷ rows) k =
    ground (arith, live_count-update_item id j f rows k, k.same_id row, k.same_deleted row)

Preserves-modify : (id : String) (f : Item → Item) → Keeps f → Preserves (modify id f)
unfolding modify get_item
Preserves-modify id f k = record {
  keeps = λ s u j. ground (arith, live_count-update_item id j f s.items k, u j);
}

pub Preserves-edit : (e : Env) (id : String) (d : Edit) → Preserves (run_edit e id d)
Preserves-edit e id d =
    rw (run_edit-modify e id d) (Preserves-modify id (edit_row e d) (Keeps-edit_row e d))

-- A row that is deleted is live no more.
live_count-delete :
    (id j : String) (rows : List Item)
    → live_count j (update_item id (λ row. record row { deleted = true }) rows) ≤ live_count j rows
unfolding update_item
live_count-delete id j [] = omega arith
live_count-delete id j (row ∷ rows) = ground (arith, live_count-delete id j rows)

pub Preserves-delete : (id : String) → Preserves (delete_item id)
unfolding delete_item modify get_item
Preserves-delete id = record {
  keeps = λ s u j. ground (arith, live_count-delete id j s.items, u j);
}

Preserves-run :
    (e : Env) (id : String) (from : Option String) (to : String) (agent : Option String)
    (forced : Bool) (reason : Option String)
    → Preserves (record_run e id from to agent forced reason)
unfolding record_run
Preserves-run e id from to agent forced reason = record { keeps = λ s u. u }

Preserves-clear : (e : Env) (id to : String) → Preserves (clear_closure e id to)
unfolding clear_closure
Preserves-clear e id to = Preserves-if (is_terminal_state to) _ _ (Preserves-pure tt) (
    Preserves-then _ _ (Preserves-edit e id (Edit.resolution none))
      (Preserves-edit (later 1 e) id (Edit.closed_by none)))

pub Preserves-update_status :
    (e : Env) (id to : String) (agent : Option String) (forced : Bool) (reason : Option String)
    → Preserves (update_status e id to agent forced reason)
unfolding update_status
Preserves-update_status e id to agent forced reason = Preserves-bind _ _ (Preserves-reads _) (λ old.
    Preserves-then _ _
      (Preserves-modify id _ (record { same_id = λ row. refl; same_deleted = λ row. refl }))
      (Preserves-then _ _ (Preserves-run (later 1 e) id (some old) to agent forced reason)
        (Preserves-then _ _ (Preserves-clear (later 2 e) id to) (Preserves-pure old))))

Preserves-touch : (e : Env) (id : String) → Preserves (touch_updated_at e id)
unfolding touch_updated_at
Preserves-touch e id =
    Preserves-modify id _ (record { same_id = λ row. refl; same_deleted = λ row. refl })

Preserves-list :
    (e : Env) (id : String) (col : ListColumn) (v : List String)
    → Preserves (update_list_field id col v >> touch_updated_at e id)
unfolding update_list_field
Preserves-list e id col v =
    Preserves-then _ _ (Preserves-modify id _ (Keeps-put_list col (nonblank v)))
      (Preserves-touch e id)

pub Preserves-add :
    (e : Env) (id : String) (col : ListColumn) (v : String)
    → Preserves (add_to_list_field e id col v)
unfolding add_to_list_field
Preserves-add e id col v = Preserves-bind _ _ (Preserves-reads _) (λ cur.
    Preserves-if (contains cur v) _ _ (Preserves-pure tt) (Preserves-list e id col (cur ++ v ∷ [])))

pub Preserves-remove :
    (e : Env) (id : String) (col : ListColumn) (v : String)
    → Preserves (remove_from_list_field e id col v)
unfolding remove_from_list_field update_list_field
Preserves-remove e id col v =
    Preserves-bind _ _ (Preserves-reads (λ s. get_list_field s id col)) (λ cur.
      let next = keep (λ x. not (x == v)) cur in
      Preserves-if (eqb (length next) (length cur)) _ _ (Preserves-pure false) (
        Preserves-then _ _
          (Preserves-modify id (put_list col (nonblank next)) (Keeps-put_list col (nonblank next)))
          (Preserves-then _ _ (Preserves-touch e id) (Preserves-pure true))))

Preserves-release :
    (e : Env) (id : String) (agent session : Option String) (reason : String) (n : ℤ) (dead : Bool)
    (tag : String)
    → Preserves (release e id agent session reason n dead tag)
unfolding release
Preserves-release e id agent session reason n dead tag =
    Preserves-then _ _ (Preserves-update_status e id _ agent false _) (
      Preserves-then _ _ (Preserves-edit e id (Edit.assignee none)) (
        Preserves-then _ _ (Preserves-edit e id (Edit.attempts n)) (
          Preserves-then _ _
            (Preserves-if dead _ _ (Preserves-add (later 4 e) id ListColumn.tags tag)
              (Preserves-pure tt))
            (Preserves-pure _))))

Preserves-claimed :
    (e : Env) (id : String) (agent session : Option String) (reason : String) (limit : ℤ)
    (tag : String)
    → Preserves (requeue_claimed e id agent session reason limit tag)
unfolding requeue_claimed
Preserves-claimed e id agent session reason limit tag =
    Preserves-bind _ _ (Preserves-reads (λ s. attempt_count s id))
      (λ before. Preserves-release e id agent session reason _ _ tag)

pub Preserves-requeue :
    (e : Env) (id : String) (agent session : Option String) (reason : String) (limit : ℤ)
    (tag : String)
    → Preserves (requeue_item e id agent session reason limit tag)
unfolding requeue_item
Preserves-requeue e id agent session reason limit tag = elim (Bool-cases (leb_ℤ (pos 1) limit)) [
  | inr low ↦ rw low (Preserves-throw _ _)
  | inl high ↦ rw high (
      Preserves-bind _ _ (Preserves-reads (λ s. status_of s id)) (λ status.
        elim (Bool-cases (status == "in_progress")) [
          | inr other ↦ rw other (Preserves-throw _ _)
          | inl claimed ↦ rw claimed (Preserves-claimed e id agent session reason limit tag)
        ]))
]

Preserves-push_comment : (c : Comment) → Preserves (push_comment c)
unfolding push_comment
Preserves-push_comment c = record { keeps = λ s u. u }

pub Preserves-comment :
    (e : Env) (id text : String) (agent : Option String) → Preserves (add_comment e id text agent)
unfolding add_comment
Preserves-comment e id text agent = Preserves-then _ _ (Preserves-reads (λ s. get_item s id)) (
    Preserves-bind _ _ (Preserves-reads (λ s. ok (next_comment_id s id))) (λ comment_id.
      Preserves-then _ _ (Preserves-push_comment (new_comment e comment_id id text agent))
        (Preserves-then _ _ (Preserves-touch (later 1 e) id) (Preserves-pure comment_id))))

Preserves-start_voyage : (e : Env) (id : String) → Preserves (start_voyage e id)
unfolding start_voyage
Preserves-start_voyage e id = elim (Bool-cases (starts_with id "VY-")) [
  | inr other ↦ rw other (Preserves-pure false)
  | inl voyage ↦ rw voyage (
      Preserves-bind _ _ (Preserves-reads (λ s. status_of s id)) (λ status.
        elim (Bool-cases (status == "in_progress")) [
          | inl started ↦ rw started (Preserves-pure false)
          | inr waiting ↦ rw waiting (
              Preserves-then _ _
                (Preserves-update_status e id "in_progress" (some "ratify") false (some "ratified"))
                (Preserves-pure true))
        ]))
]

Preserves-strip_all :
    (e : Env) (targets : List (String × List String)) → Preserves (strip_all e targets)
unfolding strip_all strip_one
Preserves-strip_all e [] = Preserves-pure ([], [])
Preserves-strip_all e ((id, tags) ∷ targets) =
    Preserves-bind _ _
      (Preserves-then _ _ (Preserves-edit e id (Edit.tags _))
        (Preserves-start_voyage (later 1 e) id))
      (λ started.
        Preserves-bind _ _ (Preserves-strip_all (later (if started then 5 else 1) e) targets)
          (λ found. Preserves-pure _))

pub Preserves-ratify : (e : Env) (phase_tag : String) → Preserves (ratify_phase e phase_tag)
unfolding ratify_phase
Preserves-ratify e phase_tag =
    Preserves-bind _ _ (Preserves-reads (λ s. collect s phase_tag s.items)) (λ targets.
      Preserves-bind _ _ (Preserves-strip_all e targets) (λ found.
        Preserves-bind _ _ (Preserves-reads (λ s. remaining s phase_tag s.items))
          (λ left. Preserves-pure _)))
