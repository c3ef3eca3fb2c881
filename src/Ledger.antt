-- ===== src/Ledger.antt =====
-- ledger/src/ledger.rs and the tables of store_lmdb/src: the state of the ledger and the reads that
-- validation and rollback make. A transaction is a value of `Ledger` that is passed on.
pub mod Weights
pub mod Blocks
pub mod State
pub mod Genesis
pub mod Valid
