-- ===== src/Cementing.antt =====
-- ledger/src/block_cementer.rs: blocks are confirmed after the blocks that they depend on.
pub mod Dependents
pub mod Cementer
pub mod Sound
pub mod Confirmed
pub mod Descent
pub mod Ends
pub mod Pruning
pub mod Line
pub mod Prunes
