-- ===== src/Retry.antt =====
-- pkg/internal/retry and pkg/v1/remote/transport/retry.go: repeated attempts with backoff.
pub mod Wait
pub mod Attempts
pub mod Bounded
pub mod Fuel
mod Examples
