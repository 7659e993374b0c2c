-- ===== src/Authn.antt =====
-- pkg/authn: credentials, and the keychains that resolve a registry or a repository to them.
pub mod Keychains
mod Examples
