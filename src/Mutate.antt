-- ===== src/Mutate.antt =====
-- pkg/v1/mutate: images made of other images.
pub mod Rebase
pub mod Images
pub mod Indexes
mod Examples
