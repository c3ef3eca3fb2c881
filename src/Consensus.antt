-- ===== src/Consensus.antt =====
-- node/src/consensus: the tiers of the representatives and the queue of their votes.
pub mod Tiers
pub mod VoteQueue
pub mod VoteRun
pub mod DeadChannels
