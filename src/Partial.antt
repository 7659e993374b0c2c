-- ===== src/Partial.antt =====
-- The interfaces of pkg/v1, and pkg/v1/partial/with.go.
pub mod Objects
pub mod With
pub mod Lookup
mod Examples
