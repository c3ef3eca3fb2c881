-- ===== src/Network/Limits.antt =====
-- network/src/bandwidth_limiter.rs: what a run of messages of both traffic types gets through.
use rsbanano_node.Prelude.{
  ℕ, ◌+◌, ◌-◌, ◌*◌, ◌^◌, ◌≤◌, ◌≡◌, ◌≢◌, arith, if◌then◌else◌, List, [], ◌∷◌, refl,
}
use rsbanano_node.Network.TokenBucket.{unlimited, reset}
use rsbanano_node.Network.Burst.{IsAccurate, IsTimely, granted, granted-bounded}
use rsbanano_node.Network.Bandwidth.{
  TrafficType, generic, bootstrap, BandwidthLimiterConfig, BandwidthLimiter, select_limiter,
  new_limiter, new_bandwidth, limiter_should_pass, should_pass, config_limit, config_burst,
}

-- A message with the time of its call, its size and its type.
abbrev pub Message : Type 0
Message = ℕ × ℕ × TrafficType

-- The bytes of one type that pass.
abbrev pub of_type : TrafficType → TrafficType → ℕ → ℕ
of_type generic generic n = n
of_type bootstrap bootstrap n = n
of_type generic bootstrap n = 0
of_type bootstrap generic n = 0

abbrev pub passed : (ℕ → ℕ → ℕ) → TrafficType → BandwidthLimiter → List Message → ℕ
passed tokens type l [] = 0
passed tokens type l ((now, size, sent) ∷ messages) =
    let call = should_pass tokens l size sent now in
    of_type type sent (if call.0 then size else 0) + passed tokens type call.1 messages

-- The calls that reach the bucket of one type.
abbrev calls_of : TrafficType → List Message → List (ℕ × ℕ)
calls_of type [] = []
calls_of generic ((now, size, generic) ∷ messages) = (now, size) ∷ calls_of generic messages
calls_of bootstrap ((now, size, bootstrap) ∷ messages) = (now, size) ∷ calls_of bootstrap messages
calls_of generic ((now, size, bootstrap) ∷ messages) = calls_of generic messages
calls_of bootstrap ((now, size, generic) ∷ messages) = calls_of bootstrap messages

abbrev pub times : List Message → List (ℕ × ℕ)
times [] = []
times ((now, size, sent) ∷ messages) = (now, size) ∷ times messages

passed-granted :
    (tokens : ℕ → ℕ → ℕ) (type : TrafficType) (l : BandwidthLimiter) (messages : List Message)
    → passed tokens type l messages
      ≡ granted tokens (select_limiter l type).bucket (calls_of type messages)
unfolding should_pass limiter_should_pass
passed-granted tokens generic l [] = refl
passed-granted tokens bootstrap l [] = refl
passed-granted tokens generic l ((now, size, generic) ∷ messages) =
    ground (arith, passed-granted tokens generic (should_pass tokens l size generic now).1 messages)
passed-granted tokens bootstrap l ((now, size, bootstrap) ∷ messages) =
    ground
      (arith, passed-granted tokens bootstrap (should_pass tokens l size bootstrap now).1 messages)
passed-granted tokens generic l ((now, size, bootstrap) ∷ messages) =
    ground
      (arith, passed-granted tokens generic (should_pass tokens l size bootstrap now).1 messages)
passed-granted tokens bootstrap l ((now, size, generic) ∷ messages) =
    ground
      (arith, passed-granted tokens bootstrap (should_pass tokens l size generic now).1 messages)

earlier :
    (a b : ℕ) (calls : List (ℕ × ℕ)) (last : ℕ)
    → a ≤ b
    → IsTimely b calls last
    → IsTimely a calls last
earlier a b [] last h t = omega arith
earlier a b ((now, size) ∷ calls) last h t = (omega (arith, t.0), t.1)

calls_of-IsTimely :
    (type : TrafficType) (first : ℕ) (messages : List Message) (last : ℕ)
    → IsTimely first (times messages) last
    → IsTimely first (calls_of type messages) last
calls_of-IsTimely generic first [] last t = t
calls_of-IsTimely bootstrap first [] last t = t
calls_of-IsTimely generic first ((now, size, generic) ∷ messages) last t =
    (t.0, calls_of-IsTimely generic now messages last t.1)
calls_of-IsTimely bootstrap first ((now, size, bootstrap) ∷ messages) last t =
    (t.0, calls_of-IsTimely bootstrap now messages last t.1)
calls_of-IsTimely generic first ((now, size, bootstrap) ∷ messages) last t =
    earlier first now _ last t.0 (calls_of-IsTimely generic now messages last t.1)
calls_of-IsTimely bootstrap first ((now, size, generic) ∷ messages) last t =
    earlier first now _ last t.0 (calls_of-IsTimely bootstrap now messages last t.1)

new_bucket :
    {F : Type 0} (burst_size : ℕ → F → ℕ) (config : BandwidthLimiterConfig F) (type : TrafficType)
    (now : ℕ)
    → (select_limiter (new_bandwidth burst_size config now) type).bucket
      ≡ reset (config_burst burst_size config type) (config_limit burst_size config type) now
unfolding new_bandwidth new_limiter
new_bucket burst_size config generic now = refl
new_bucket burst_size config bootstrap now = refl

reset_limited :
    (max rate now : ℕ)
    → max ≢ 0
    → rate ≢ 0
    → reset max rate now ≡ record {
      last_refill = now;
      current_size = max;
      max_token_count = max;
      smallest_size = max;
      refill_rate = rate;
    }
unfolding reset
reset_limited max rate now h k = ground arith

reset-granted :
    (tokens : ℕ → ℕ → ℕ) (accurate : IsAccurate tokens) (max rate now : ℕ) (calls : List (ℕ × ℕ))
    (last : ℕ)
    → max ≢ 0
    → rate ≢ 0
    → rate ≢ unlimited
    → IsTimely now calls last
    → granted tokens (reset max rate now) calls * (2 ^ 50 * 1000000000)
      ≤ max * (2 ^ 50 * 1000000000) + (last - now) * rate * (2 ^ 50 + 1)
reset-granted tokens accurate max rate now calls last h k metered timely =
    rw (reset_limited max rate now h k)
      (granted-bounded tokens accurate _ calls now last metered (omega arith) timely)

-- Since a bandwidth limiter was made, the bytes of one traffic type that it let pass are at
-- most the burst of that type and its limit per second over the time that passed, up to the
-- rounding of the floating-point refill, at most one part in 2^50. The type has a burst and a
-- limit that are neither zero nor the unlimited rate, and the clock does not step back.
pub passed-bounded :
    {F : Type 0} (burst_size : ℕ → F → ℕ) (tokens : ℕ → ℕ → ℕ) (accurate : IsAccurate tokens)
    (config : BandwidthLimiterConfig F) (type : TrafficType) (messages : List Message)
    (now last : ℕ)
    → config_burst burst_size config type ≢ 0
    → config_limit burst_size config type ≢ 0
    → config_limit burst_size config type ≢ unlimited
    → IsTimely now (times messages) last
    → passed tokens type (new_bandwidth burst_size config now) messages * (2 ^ 50 * 1000000000)
      ≤ config_burst burst_size config type * (2 ^ 50 * 1000000000)
        + (last - now) * config_limit burst_size config type * (2 ^ 50 + 1)
passed-bounded burst_size tokens accurate config type messages now last h k metered timely =
    rw
      (
        passed-granted tokens type (new_bandwidth burst_size config now) messages,
        new_bucket burst_size config type now,
      )
      (reset-granted tokens accurate _ _ now (calls_of type messages) last h k metered
        (calls_of-IsTimely type now messages last timely))
