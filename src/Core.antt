-- ===== src/Core.antt =====
-- The data model of the core crate (core/src): amounts, epochs, blocks with their sideband, account
-- and pending records, and the proof-of-work thresholds.
pub mod Amount
pub mod Types
pub mod Epoch
pub mod BlockType
pub mod Details
pub mod Block
pub mod Saved
pub mod Work
pub mod Vote
