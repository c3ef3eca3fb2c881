-- ===== src/Tests.antt =====
-- A small ledger, and the theorems at inputs that meet their hypotheses.
pub mod Unfolded
pub mod Fixture
pub mod Facts
pub mod Runs
pub mod Network
mod Witnesses
mod Queues
mod Cemented
mod Sets
mod Samples
