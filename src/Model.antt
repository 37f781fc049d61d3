-- ===== src/Model.antt =====
-- internal/model/model.go: the types that the master, the CLI and the runner share.
pub mod State
pub mod Suite
pub mod Entities
pub mod Normalize
