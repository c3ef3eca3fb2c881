-- ===== src/Lib.antt =====
-- rsban, a node of the Nano protocol in Rust: its ledger, with the cementation and pruning of blocks,
-- and the queues, limits and sets that the node keeps around it.
--
-- The program's parts and their files:
-- - Core: core/src. Core/Amount is amount.rs, Core/Epoch is epoch.rs, Core/Work is
--   work/work_thresholds.rs, Core/Vote is vote.rs, Core/BlockType, Core/Block, Core/Details and
--   Core/Saved are blocks/ with account_info.rs, pending_key.rs, pending_info.rs and
--   confirmation_height_info.rs. A block is a value of `Block` with its five kinds; its hash is a
--   field, as in the code, where it is computed when the block is made.
-- - Ledger: Ledger/State is `Ledger` (ledger/src/ledger.rs) with its tables, counters and reads
--   (ledger_set_any.rs, ledger_set_confirmed.rs) and `update_account`; Ledger/Blocks is the block
--   table (store_lmdb/src/block_store.rs); Ledger/Weights is `RepWeightsUpdater`
--   (ledger/src/rep_weights_updater.rs); Ledger/Genesis is `add_genesis_block` with
--   the genesis sideband (ledger_constants.rs); Ledger/Valid is the invariant and the money supply.
-- - Validation: ledger/src/block_insertion/validation. Validation/Helpers is helpers.rs,
--   Validation/Rules holds the checks of the five rules files, Validation/Validate is mod.rs.
-- - Insertion: Insertion/Factory is validator_factory.rs, which shows the validator its view of the
--   ledger, Insertion/Inserter is block_inserter.rs, Insertion/Process is `Ledger::process`, which
--   runs factory, validator and inserter in this order; Insertion/Reached is the relation of the
--   ledgers that a run of insertions leads to.
-- - Rollback: Rollback/Finder is ledger/src/representative_block_finder.rs, the other files are those
--   of ledger/src/block_rollback: planner_factory.rs loads what rollback_planner.rs decides on,
--   instructions_executor.rs writes, rollback_performer.rs repeats this until the block is gone.
-- - Cementing: Cementing/Dependents is ledger/src/dependent_blocks_finder.rs, Cementing/Cementer is
--   ledger/src/block_cementer.rs, which confirms a block after all that it depends on, and
--   Cementing/Pruning is `pruning_action` of ledger/src/ledger.rs.
-- - Network: Network/TokenBucket is network/src/token_bucket.rs, and Network/Bandwidth
--   is bandwidth_limiter.rs, which has a bucket for each type of traffic.
-- - Transport: Transport/FairQueue is node/src/transport/fair_queue.rs, a queue for each source and
--   a cursor that takes turns among them by priority.
-- - Consensus: Consensus/VoteQueue is node/src/consensus/vote_processor_queue.rs, a fair queue of
--   votes by the tier of their representative; Consensus/Tiers is rep_tiers.rs. Consensus/VoteRun is
--   the relation of the queues that a run of operations leads to.
-- - Bootstrap: node/src/bootstrap/ascending. Bootstrap/Priorities is ordered_priorities.rs,
--   Bootstrap/Blocking is ordered_blocking.rs, Bootstrap/AccountSets is account_sets.rs, which moves
--   accounts between the two; Bootstrap/Runs is any sequence of its operations. Bootstrap/Throttle is
--   throttle.rs.
-- - Prelude: keyed tables, maps in the order of their keys (Prelude/Order) and indexes over them
--   (Prelude/Index), machine words and their bits, Boolean tests, `Result` and the bind of `Option`.
-- - Tests: a small ledger, small queues and sets, and the theorems at concrete inputs.
--
-- How the code is read. LMDB tables are keyed tables (Prelude/Table): `put` replaces, and a deletion
-- of a missing key fails. A transaction is state passing: each write returns the new table, and
-- `none` is a panic (a failed `unwrap` or `expect`), which aborts the transaction. Errors of the code
-- are values: `BlockStatus` for a refused block, `Stop` for a rollback that ends early, where the
-- ledger keeps what was written before. Structures behind a lock are states that each call returns
-- anew. Hash maps whose order does not show are maps in the order of their keys. Words of 64 and 128
-- bits wrap where the code wraps, a time stamp is a signed word in two's complement; `Amount` addition and subtraction are those of a release build, and
-- assertions of debug builds are left out.
--
-- Parameters: signatures and the hash of the work (`Constants.verify`,
-- `WorkThresholds.get_difficulty`), since cryptography is in third-party crates; the clock (`now`);
-- the products of floating-point numbers in the refill of a bucket and in its burst; the arithmetic
-- of bootstrap priorities, on `f64`, and their descending order; and what other threads write while
-- the cementer refreshes its transaction.
--
-- Fuel: the loop that looks for a representative block walks to the previous block, and has the
-- height of the head block and one more, which a chain of blocks with falling heights does not use
-- up. The performer of a rollback takes its fuel as an argument, one unit for each turn of its loop,
-- and ends with `endless` where it is spent: a block at the head of its account takes two turns, one
-- to take it back and one to see that it is gone. The cementer takes the number of its turns, and
-- pruning its turns, for which the height of the block and two are enough. The cursor of a fair
-- queue has two rounds and a turn, after which the code's loop would go on for ever. Trimming the
-- account sets has the length of each set and one more, since each turn drops an account; resizing the
-- throttle has its length and one more to shrink, and the new size and one more to grow.
--
-- Not modelled: encodings on the wire and JSON, the observer (it counts), the caches that are filled
-- at the start, sockets and their tasks, elections, wallets and RPC.
pub mod Prelude
pub mod Core
pub mod Ledger
pub mod Validation
pub mod Insertion
pub mod Rollback
pub mod Cementing
pub mod Network
pub mod Transport
pub mod Consensus
pub mod Bootstrap
pub mod Tests
