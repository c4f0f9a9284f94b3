-- ===== src/Tests.antt =====
-- Runs of the model at concrete inputs: the theorems applied, and small tests.
pub mod Memory
mod Files
mod Tasks
mod Paths
