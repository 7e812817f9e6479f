-- ===== src/Crud.antt =====
-- src/crud.rs: the store of items, runs and comments.
--
-- A table is the list of its rows: those of its record batches, in order. An operation of the
-- source rebuilds the batch of one row and shares the other columns, which is a change of that row.
-- The schemas fix the columns, so `RecordBatch::try_new` does not fail.
pub mod Rows
pub mod Fields
pub mod Status
pub mod Create
pub mod Ratify
pub mod Comments
pub mod Query
pub mod Calls
use arrow_kanban.Prelude.{ℕ, ◌+◌, ◌≡◌, length, String, Bool, Option, List, [], Result, ok, err}
use arrow_kanban.Prelude.Int.{ℤ}

-- `EMBED_DIM`
abbrev pub embed_dim : ℕ
embed_dim = 384

-- A vector that `embeddings_to_array` takes, as the bit patterns of its floats. One of another length
-- ends in a panic there, and is no value here.
pub record Embedding : Type 0 where
  pub values : List ℕ
  pub fits : length values ≡ embed_dim

-- A row of the Items table.
pub record Item : Type 0 where
  pub id : String
  pub title : String
  pub item_type : String
  pub status : String
  pub priority : Option String
  pub created : ℕ
  pub assignee : Option String
  pub board : String
  pub tags : List String
  pub related : List String
  pub depends_on : List String
  pub body : Option String
  pub body_hash : Option String
  pub deleted : Bool
  pub resolution : Option String
  pub closed_by : Option String
  pub updated_at : Option ℕ
  pub priority_rank : Option ℤ
  pub attempt_count : Option ℤ
  pub embedding : Option Embedding

-- A row of the Runs table: one change of status.
pub record Run : Type 0 where
  pub run_id : String
  pub item_id : String
  pub from_status : Option String
  pub to_status : String
  pub timestamp : ℕ
  pub by_agent : Option String
  pub forced : Bool
  pub reason : Option String

-- A row of the Comments table.
pub record Comment : Type 0 where
  pub comment_id : String
  pub item_id : String
  pub author : String
  pub text : String
  pub created_at : ℕ
  pub parent_comment_id : Option String
  pub resolved : Bool

pub record KanbanStore : Type 0 where
  pub items : List Item
  pub runs : List Run
  pub comments : List Comment

unfoldable pub new : KanbanStore
new = record { items = []; runs = []; comments = [] }

pub data CrudError : Type 0 where
  not_found : String → CrudError
  unknown_type : String → CrudError
  duplicate_id : String → CrudError
  -- id, current, attempted
  claim_conflict : String → String → String → CrudError
  invalid_requeue : String → CrudError

-- What the store does not compute: the successive readings of the clock in milliseconds, the
-- successive random ids, and the hexadecimal SHA-256 of a text.
pub record Env : Type 0 where
  pub now : ℕ → ℕ
  pub uuid : ℕ → String
  pub digest : String → String

-- The environment after `n` more readings.
abbrev pub later : ℕ → Env → Env
later n e = record e { now = λ k. e.now (n + k); uuid = λ k. e.uuid (n + k) }

-- A method on `&mut self` that may fail: what it wrote before it failed stays written.
abbrev pub Action : Type 0 → Type 0
Action A = KanbanStore → Result CrudError A × KanbanStore

abbrev pub continue :
    {A B : Type 0}
    → Result CrudError A
    → (A → Action B)
    → KanbanStore
    → Result CrudError B × KanbanStore
continue (ok a) f s = f a s
continue (err e) f s = (err e, s)

infixl 5 ◌>>=◌ ◌>>◌
abbrev pub ◌>>=◌ : {A B : Type 0} → Action A → (A → Action B) → Action B
◌>>=◌ m f s = let (r, s') = m s in continue r f s'

abbrev pub ◌>>◌ : {A B : Type 0} → Action A → Action B → Action B
m >> k = m >>= λ _. k

abbrev pub pure : {A : Type 0} → A → Action A
pure a s = (ok a, s)

abbrev pub throw : {A : Type 0} → CrudError → Action A
throw e s = (err e, s)

-- A method on `&self`.
abbrev pub reads : {A : Type 0} → (KanbanStore → Result CrudError A) → Action A
reads f s = (f s, s)
