-- ===== src/Examples.antt =====
-- Runs at concrete inputs, and the theorems applied at inputs that meet their hypotheses.
mod Data
mod Jids
mod Affiliations
mod Scan
mod Rooms
mod Presences
mod Messages
mod Forms
mod Builder
mod Parsing
mod Queues
mod Queries
mod Storage
