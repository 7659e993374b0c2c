-- ===== src/Server.antt =====
-- pkg/registry: the in-memory registry, its requests and responses, and its two stores.
pub mod Http
pub mod Paths
pub mod Blobs
pub mod Manifests
pub mod Routes
mod Examples
