-- ===== src/Scenarios.antt =====
-- Concrete runs of the theorems: a small server, a small board and the shipped configuration.
mod Server
mod Store
mod Rules
mod Replays
mod Replicas
mod Graphs
mod Commands
mod Vocabulary
