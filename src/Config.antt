-- ===== src/Config.antt =====
-- internal/config: the catalog of pools, nodes, groups, users and quota rules.
pub mod Types
pub mod Quota
pub mod Catalog
pub mod Rules
pub mod Live
