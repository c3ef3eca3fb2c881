-- ===== src/Network.antt =====
-- network/src: the limits on what the node sends.
pub mod TokenBucket
pub mod Burst
pub mod Bandwidth
pub mod Limits
