-- ===== src/Name.antt =====
-- pkg/name: the names of registries, repositories, tags and digests, and their parsers.
pub mod Errors
pub mod Options
pub mod Check
pub mod Registry
pub mod Scheme
pub mod Repository
pub mod Tag
pub mod Digest
pub mod Reference
mod Examples
