-- ===== src/Sched.antt =====
-- internal/sched: the master's control loop.
pub mod Ledger
pub mod Pick
pub mod Queue
pub mod Rollup
pub mod Nodes
pub mod Views
pub mod Ids
pub mod Setup
pub mod Finish
pub mod Ingest
pub mod Reconcile
pub mod Admit
pub mod Submit
pub mod Cancel
