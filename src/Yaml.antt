-- ===== src/Yaml.antt =====
-- internal/yamlite/yamlite.go: the YAML subset of the configuration files.
pub mod Bytes
pub mod Value
pub mod Quoted
pub mod Scalar
pub mod Lines
pub mod Parse
pub mod Lengths
pub mod Fuel
pub mod Separators
pub mod Print
