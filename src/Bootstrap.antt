-- ===== src/Bootstrap.antt =====
-- node/src/bootstrap/ascending: the accounts that the bootstrapper asks for.
pub mod Priorities
pub mod PriorityLaws
pub mod PriorityChanges
pub mod Blocking
pub mod BlockingLaws
pub mod BlockingPops
pub mod AccountSets
pub mod Trim
pub mod SetLaws
pub mod BlockedLaws
pub mod Sync
pub mod Choice
pub mod Asked
pub mod Runs
pub mod Throttle
pub mod Sampling
pub mod Unblocked
