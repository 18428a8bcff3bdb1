-- ===== src/Tests.antt =====
-- Tests and examples of the theorems, at concrete inputs.
mod Sorting
mod Sample
mod Identifiers
mod States
mod Schemas
mod Texts
mod Scopes
mod Locks
mod Acceptance
mod Blocking
mod Configs
mod Extraction
mod Distances
mod Graphs
mod Services
