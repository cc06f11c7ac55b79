-- ===== src/State.antt =====
-- internal/state: small state files, pairs of files, and trees of numbered entry directories.
pub mod Pair
pub mod Entries
mod Tests
