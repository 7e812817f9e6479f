-- ===== src/Lib.antt =====
-- The arrow-kanban board: its item store, its lifecycle rules and the durable server around it.
--
-- The program is a board of work items. A library crate (src/) keeps the items, their runs (changes
-- of status), comments and relations in tables, allocates ids, and decides which moves are legal. A
-- server crate (server/src/) takes commands: the engine admits a mutation if the store takes writes
-- and the writer's lease is current, runs the handler on the tables, and commits the event of the
-- mutation to a log, whose fsync is the barrier. A load brings the checkpoint up with the log.
--
-- Which file models which part (paths from the repository's root):
--   Config         src/config.rs: BoardConfig, ConfigFile and their lookups and validation.
--   StateModel     src/state_model.rs and ontology/kanban.ttl: the states and edges of a lifecycle.
--   StateMachine   src/state_machine.rs: validate_transition_for_type, type_transition_verdict,
--                  check_wip_limit, validate_resolution, validate_status_filter.
--   ItemType       src/item_type.rs. IdAlloc: src/id_alloc.rs.
--   Crud           src/crud.rs: KanbanStore. Crud/Rows has the scans, Crud/Fields the updates of
--                  fields, Crud/Status moves, claims and requeues, Crud/Create, Crud/Ratify,
--                  Crud/Comments and Crud/Query the rest. Crud/Calls has the methods that write,
--                  but for the three loaders, as calls, and the stores that calls reach.
--   Relations      src/relations.rs: RelationsStore.
--   Lease          server/src/lease.rs: LocalWriterLease over one owner file.
--   Storage        server/src/storage.rs: ParquetBackend, the event log and its checkpoint.
--   Health         server/src/health.rs: HealthGate.
--   Engine         server/src/engine.rs: KanbanEngine::apply.
--   Events         server/src/events.rs: MutationEvent; Events/Effects has replay_into.
--   Replica        server/src/replica.rs and snapshot.rs: a read-only replica. Replica/Poll has the
--                  bootstrap, the resync and the poll.
--   CriticalPath   src/critical_path.rs: the graph of the dependencies. CriticalPath/Walk has Kahn's
--                  loop, CriticalPath/Analysis the result and CriticalPath/Worklist the routing.
--   RelationVocab  src/relation_vocab.rs: predicates, lookup and the validation of edges;
--                  RelationVocab/Reload has the compiled predicates and the reload.
--   Handlers       server/src/handlers/core.rs: the move, claim, bounce, requeue, ratify, comment,
--                  rank and delete commands over the store; Handlers/Relating has create,
--                  Handlers/Updating update, and Handlers/Triples has
--                  server/src/handlers/relations.rs.
--   Prelude        shared types, tests and lemmas. Scenarios: runs at concrete inputs.
--
-- State and operations. A table is the list of its rows, in the order of the record batches; a
-- method that rebuilds one row is `modify`. A method on `&mut self` is an Action: it gives a result
-- and the store, and what it wrote before it failed stays written. Clock readings, random ids and
-- digests come from an Env. In the server the clock, the probe, the outcome of each write and what
-- the owner file holds are arguments (World, Faults, OwnerFile), so every failure is a case.
-- Handlers, the state and the events are parameters of Engine and Storage. What the source of a
-- replica answers in a poll is an argument (Answers), and so are the methods of an extension, the
-- order in which a hash map gives its keys, the configuration of a board, and the writer and reader
-- of the JSON stamp of a bounce. What the parsers of the ontology give is an argument of a reload.
--
-- Numbers are naturals; an id's number is a u32, an attempt count an i32, an epoch and a sequence
-- number u64, each with its wrap-around written out. Printing a number runs on fuel one above the
-- number, which is more than its digits. Kahn's loop runs on as much fuel as the graph has keys, one
-- for each round, and the trace of a longest path on as much as there are ordered items, since each
-- step goes to an item before the last in the order. All other loops are structural.
--
-- Not modelled: Arrow and Parquet encoding, YAML, JSON and Turtle text, the network, the
-- handlers that read items, event derivation, the command line, rendering, migration and
-- embeddings, since they are text, transport or not reached yet.
pub mod Prelude
pub mod Config
pub mod StateModel
pub mod StateMachine
pub mod Crud
pub mod Lease
pub mod Storage
pub mod Relations
pub mod CriticalPath
pub mod Handlers
pub mod RelationVocab
pub mod Replica
pub mod Health
pub mod Engine
pub mod Events
pub mod Scenarios
pub mod ItemType
pub mod IdAlloc
