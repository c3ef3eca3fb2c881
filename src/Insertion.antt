-- ===== src/Insertion.antt =====
-- ledger/src/block_insertion: loading the validator's view of the ledger, carrying the instructions
-- out, and `Ledger::process`.
pub mod Factory
pub mod Inserter
pub mod Process
pub mod Inverse
pub mod Total
pub mod View
pub mod Supply
pub mod Stored
pub mod Loaded
pub mod After
pub mod Keeps
pub mod Once
pub mod Epochs
pub mod Weights
pub mod Chained
pub mod Reached
