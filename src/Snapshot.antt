-- ===== src/Snapshot.antt =====
-- Freezing and restoring a kernel: src/snapshot.rs.
pub mod Pages
pub mod Fields
pub mod Freeze
pub mod State
mod Tests
