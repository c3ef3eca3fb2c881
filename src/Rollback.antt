-- ===== src/Rollback.antt =====
-- ledger/src/block_rollback and ledger/src/representative_block_finder.rs: `Ledger::rollback`.
pub mod Finder
pub mod Planner
pub mod Factory
pub mod Executor
pub mod Performer
pub mod Chain
pub mod Steps
pub mod Confirmed
pub mod Replan
pub mod Undo
pub mod Restore
pub mod Untie
pub mod Inverse
