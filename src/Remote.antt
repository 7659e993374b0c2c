-- ===== src/Remote.antt =====
-- pkg/v1/remote: the client that writes to a registry.
pub mod Act
pub mod Writer
pub mod Server
pub mod Routed
pub mod Served
pub mod Exchanged
pub mod Uploaded
pub mod Listing
mod Examples
