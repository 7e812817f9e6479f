-- ===== src/Crud/Comments.antt =====
-- src/crud.rs: comments on items.
use arrow_kanban.Prelude.{
  ◌+◌, String, ◌≡◌, Bool, true, false, ◌&&◌, Option, none, some, List, [], ◌∷◌, ◌++◌, ◌==◌, ◌<>◌,
  any, length, keep, if◌then◌else◌, ok, err, arith, eq_refl, leb, any-append, ◌⊎◌, inl, inr,
  Option-cases, ap, ◌∙◌,
}
use arrow_kanban.Prelude.Decimal.{show_padded}
use arrow_kanban.Crud.{
  Comment, KanbanStore, not_found, Env, later, Action, pure, reads, ◌>>=◌, ◌>>◌,
}
use arrow_kanban.Crud.Rows.{get_item, live, modify}
use arrow_kanban.Crud.Fields.{touch_updated_at}

unfoldable pub push_comment : Comment → Action Unit
push_comment c s = (ok tt, record s { comments = s.comments ++ c ∷ [] })

-- A missing agent is stored as "unknown".
abbrev pub author_of : Option String → String
author_of none = "unknown"
author_of (some a) = a

-- The number is one more than the comments of the whole store.
abbrev pub next_comment_id : KanbanStore → String → String
next_comment_id s item_id = "CMT-" <> item_id <> "-" <> show_padded (length s.comments + 1)

-- The row that `add_comment` adds.
abbrev pub new_comment : Env → String → String → String → Option String → Comment
new_comment e comment_id item_id text agent = record {
  comment_id = comment_id;
  item_id = item_id;
  author = author_of agent;
  text = text;
  created_at = e.now 0;
  parent_comment_id = none;
  resolved = false;
}

unfoldable pub add_comment : Env → String → String → Option String → Action String
add_comment e item_id text agent = do
  reads (λ s. get_item s item_id)
  comment_id ← reads (λ s. ok (next_comment_id s item_id))
  push_comment (new_comment e comment_id item_id text agent)
  touch_updated_at (later 1 e) item_id
  pure comment_id

abbrev pub is_comment : String → String → String → Comment → Bool
is_comment item_id author text c = c.item_id == item_id && c.author == author && c.text == text

unfoldable pub has_comment : KanbanStore → String → String → String → Bool
has_comment s item_id author text = any (is_comment item_id author text) s.comments

-- `sort_by_key` is stable: a comment stays before the later rows that are of the same time.
unfoldable pub insert_by_time : Comment → List Comment → List Comment
insert_by_time c [] = c ∷ []
insert_by_time c (d ∷ ds) =
    if leb c.created_at d.created_at then c ∷ d ∷ ds else d ∷ insert_by_time c ds

unfoldable pub sort_by_time : List Comment → List Comment
sort_by_time [] = []
sort_by_time (c ∷ cs) = insert_by_time c (sort_by_time cs)

unfoldable pub list_comments : KanbanStore → String → List Comment
list_comments s item_id = sort_by_time (keep (λ (c : Comment). c.item_id == item_id) s.comments)

-- A comment that is accepted is there afterwards, under the author that replay looks for; one on an
-- item that is not there is refused, and nothing is written.
pub has_comment-add_comment :
    (e : Env) (s : KanbanStore) (id text : String) (agent : Option String)
    → ((live s id ≡ none) × (add_comment e id text agent s ≡ (err (not_found id), s)))
      ⊎ (has_comment (add_comment e id text agent s).1 id (author_of agent) text ≡ true)
unfolding add_comment get_item push_comment touch_updated_at modify has_comment
has_comment-add_comment e s id text agent = elim (Option-cases (live s id)) [
  | inl absent ↦ inl (absent, ground arith)
  | inr (row, h) ↦
      let c = new_comment e (next_comment_id s id) id text agent in
      let after : (add_comment e id text agent s).1.comments ≡ s.comments ++ c ∷ [] =
        ground arith in
      inr (
        ap (any (is_comment id (author_of agent) text)) after
        ∙ any-append (is_comment id (author_of agent) text) s.comments (c ∷ [])
        ∙ ground (arith, eq_refl id, eq_refl (author_of agent), eq_refl text))
]
