-- ===== src/Network/Bandwidth.antt =====
-- network/src/bandwidth_limiter.rs, with `TrafficType` of network/src/lib.rs. A limiter behind its
-- lock is passed on as a value; `F` is `f64`, and `burst_size` the product of a limit and a ratio.
use rsbanano_node.Prelude.{ℕ, Bool}
use rsbanano_node.Network.TokenBucket.{TokenBucket, reset, new, try_consume}

pub data TrafficType : Type 0 where
  generic bootstrap : TrafficType

pub record RateLimiter : Type 0 where
  pub bucket : TokenBucket

pub record BandwidthLimiterConfig (F : Type 0) : Type 0 where
  pub generic_limit : ℕ
  pub generic_burst_ratio : F
  pub bootstrap_limit : ℕ
  pub bootstrap_burst_ratio : F

pub record BandwidthLimiter : Type 0 where
  pub limiter_generic : RateLimiter
  pub limiter_bootstrap : RateLimiter

abbrev pub select_limiter : BandwidthLimiter → TrafficType → RateLimiter
select_limiter l generic = l.limiter_generic
select_limiter l bootstrap = l.limiter_bootstrap

abbrev pub with_limiter : BandwidthLimiter → TrafficType → RateLimiter → BandwidthLimiter
with_limiter l generic r = record l { limiter_generic = r }
with_limiter l bootstrap r = record l { limiter_bootstrap = r }

module _ {F : Type 0} (burst_size : ℕ → F → ℕ) where
  unfoldable pub new_limiter : F → ℕ → ℕ → RateLimiter
  new_limiter limit_burst_ratio limit now = record {
    bucket = new (burst_size limit limit_burst_ratio) limit now;
  }

  unfoldable pub reset_limiter : F → ℕ → ℕ → RateLimiter
  reset_limiter limit_burst_ratio limit now = record {
    bucket = reset (burst_size limit limit_burst_ratio) limit now;
  }

  unfoldable pub new_bandwidth : BandwidthLimiterConfig F → ℕ → BandwidthLimiter
  new_bandwidth config now = record {
    limiter_generic = new_limiter config.generic_burst_ratio config.generic_limit now;
    limiter_bootstrap = new_limiter config.bootstrap_burst_ratio config.bootstrap_limit now;
  }

  unfoldable pub reset_bandwidth : BandwidthLimiter → ℕ → F → TrafficType → ℕ → BandwidthLimiter
  reset_bandwidth l limit burst_ratio limit_type now =
      with_limiter l limit_type (reset_limiter burst_ratio limit now)

  abbrev pub config_limit : BandwidthLimiterConfig F → TrafficType → ℕ
  config_limit config generic = config.generic_limit
  config_limit config bootstrap = config.bootstrap_limit

  abbrev pub config_burst : BandwidthLimiterConfig F → TrafficType → ℕ
  config_burst config generic = burst_size config.generic_limit config.generic_burst_ratio
  config_burst config bootstrap = burst_size config.bootstrap_limit config.bootstrap_burst_ratio

module _ (tokens : ℕ → ℕ → ℕ) where
  unfoldable pub limiter_should_pass : RateLimiter → ℕ → ℕ → Bool × RateLimiter
  limiter_should_pass r message_size now =
      let (passes, bucket) = try_consume tokens r.bucket message_size now in
      (passes, record { bucket = bucket })

  unfoldable pub should_pass : BandwidthLimiter → ℕ → TrafficType → ℕ → Bool × BandwidthLimiter
  should_pass l buffer_size limit_type now =
      let (passes, limiter) = limiter_should_pass (select_limiter l limit_type) buffer_size now in
      (passes, with_limiter l limit_type limiter)
