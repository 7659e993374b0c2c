-- ===== src/Transport.antt =====
-- pkg/v1/remote/transport: the errors that a registry answers with, and how a client is authorized.
pub mod Values
pub mod Errors
pub mod Classified
pub mod Addresses
pub mod Ping
pub mod Bearer
pub mod Handshake
mod Examples
pub mod Checked
pub mod Sorted
pub mod Redacted
