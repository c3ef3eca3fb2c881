-- ===== src/Transport.antt =====
-- node/src/transport: the queues between the network and the processors.
pub mod FairQueue
