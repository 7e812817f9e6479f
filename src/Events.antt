-- ===== src/Events.antt =====
-- server/src/events.rs: the committed events. Those of the optional research feature are left out, and
-- the payload of an extension is a type.
pub mod Effects
pub mod Replay
pub mod Moves
use arrow_kanban.Prelude.{ℕ, String, Bool, Option, List}
use arrow_kanban.Prelude.Int.{ℤ}

pub record CreatedEvent : Type 0 where
  pub id : String
  pub title : String
  pub item_type : String
  pub board : String
  pub priority : Option String
  pub assignee : Option String
  pub tags : List String
  pub related : List String
  pub depends_on : List String
  pub body : Option String
  pub relationships : List String
  pub agent : Option String

pub record MovedEvent : Type 0 where
  pub id : String
  pub from : String
  pub to : String
  pub assignee : Option String
  pub force : Bool
  pub reason : Option String
  pub resolution : Option String
  pub closed_by : Option String
  pub agent : Option String
  pub unassign : Bool

pub record RequeuedEvent : Type 0 where
  pub id : String
  pub attempts : ℤ
  pub status : String
  pub dead_lettered : Bool
  pub dead_letter_tag : Option String
  pub agent : Option String
  pub session : Option String
  pub reason : String

pub record UpdatedEvent : Type 0 where
  pub id : String
  pub title : Option String
  pub priority : Option String
  pub assignee : Option String
  pub tags : Option (List String)
  pub body : Option String
  pub related : Option (List String)
  pub depends_on : Option (List String)
  pub relate : List String
  pub unrelate : List String
  pub updated : List String
  pub relationships_added : List String
  pub relationships_removed : List String
  pub agent : Option String

pub record DeletedEvent : Type 0 where
  pub id : String
  pub agent : Option String

pub record RatifiedEvent : Type 0 where
  pub phase_tag : String
  pub stripped : List String
  pub voyages_started : List String
  pub remaining_pending : ℕ
  pub agent : Option String

pub record CommentedEvent : Type 0 where
  pub id : String
  pub text : String
  pub agent : Option String

pub record RankedEvent : Type 0 where
  pub id : String
  pub rank : Option ℤ
  pub agent : Option String

pub record RelationAddedEvent : Type 0 where
  pub source : String
  pub target : String
  pub predicate : String
  pub agent : Option String

pub record RelationRemovedEvent : Type 0 where
  pub source : String
  pub target : String
  pub predicate : String
  pub agent : Option String

pub data MutationEvent (Payload : Type 0) : Type 0 where
  created : CreatedEvent → MutationEvent Payload
  moved : MovedEvent → MutationEvent Payload
  requeued : RequeuedEvent → MutationEvent Payload
  deleted : DeletedEvent → MutationEvent Payload
  ratified : RatifiedEvent → MutationEvent Payload
  updated : UpdatedEvent → MutationEvent Payload
  commented : CommentedEvent → MutationEvent Payload
  ranked : RankedEvent → MutationEvent Payload
  relation_added : RelationAddedEvent → MutationEvent Payload
  relation_removed : RelationRemovedEvent → MutationEvent Payload
  -- namespace, kind and payload
  extension : String → String → Payload → MutationEvent Payload
