-- ===== src/Tests.antt =====
-- The theorems at concrete inputs: a small lab with one pool, two nodes, two users and three rules.
mod Fixtures
mod Scheduling
mod Catalogs
mod Runs
mod Stores
mod Reports
mod Texts
mod Documents
mod Attempts
mod Backends
mod Nodes
