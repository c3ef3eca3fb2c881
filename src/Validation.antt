-- ===== src/Validation.antt =====
-- ledger/src/block_insertion/validation: `BlockValidator`, which decides whether a block may be
-- inserted, and what its insertion writes.
pub mod Helpers
pub mod Rules
pub mod Validate
pub mod Accepted
pub mod Balance
