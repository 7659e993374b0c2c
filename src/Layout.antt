-- ===== src/Layout.antt =====
-- pkg/v1/layout: images on disk in the OCI layout.
pub mod Files
pub mod Kept
pub mod Written
pub mod Torn
mod Examples
