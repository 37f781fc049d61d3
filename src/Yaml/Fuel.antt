-- ===== src/Yaml/Fuel.antt =====
-- The recursion of internal/yamlite/yamlite.go ends: the fuel that parse gives is enough for every
-- document.
pub mod Scalars
pub mod Reads
pub mod Blocks
pub mod Documents
