-- ===== src/Cache.antt =====
-- pkg/v1/cache: images whose layers are looked up in a cache.
pub mod Images
pub mod Counted
mod Examples
