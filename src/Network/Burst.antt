-- ===== src/Network/Burst.antt =====
-- network/src/token_bucket.rs: the sizes of a bucket, and what a run of calls takes from it.
use rsbanano_node.Prelude.{
  ℕ, ◌+◌, ◌-◌, ◌*◌, ◌^◌, ◌≤◌, ◌≡◌, sym, ◌∙◌, ◌≢◌, arith, if◌then◌else◌, List, [], ◌∷◌, refl,
}
use rsbanano_node.Network.TokenBucket.{
  TokenBucket, unlimited, reset, largest_burst, refill, consumed, try_consume,
}

-- The documented precision of the product of the refill: four operations on `f64`, each of which
-- rounds its result up by a factor of at most 1 + 2^-53.
abbrev pub IsAccurate : (ℕ → ℕ → ℕ) → Type 0
IsAccurate tokens =
    (time rate : ℕ) → tokens time rate * (2 ^ 50 * 1000000000) ≤ time * rate * (2 ^ 50 + 1)

-- The smallest size is one the bucket had, and no size is above the maximum.
abbrev pub IsBucket : TokenBucket → Type 0
IsBucket b = (b.smallest_size ≤ b.current_size) × (b.current_size ≤ b.max_token_count)

-- The sum of the sizes that pass in a run of calls, each at its time.
abbrev pub granted : (ℕ → ℕ → ℕ) → TokenBucket → List (ℕ × ℕ) → ℕ
granted tokens b [] = 0
granted tokens b ((now, size) ∷ calls) =
    let call = try_consume tokens b size now in
    (if call.0 then size else 0) + granted tokens call.1 calls

-- The clock of the calls does not step back, from a first time to a last one.
abbrev pub IsTimely : ℕ → List (ℕ × ℕ) → ℕ → Type 0
IsTimely first [] last = first ≤ last
IsTimely first ((now, size) ∷ calls) last = (first ≤ now) × IsTimely now calls last

pub reset-IsBucket : (max rate now : ℕ) → IsBucket (reset max rate now)
unfolding reset
reset-IsBucket max rate now = ground arith

split_time : (a b c r : ℕ) → a ≤ b → b ≤ c → (c - a) * r ≡ (c - b) * r + (b - a) * r
split_time a b c r h k = grind arith

-- A refill adds no more than the rate gives in the time that it accounts for.
refilled_size :
    (tokens : ℕ → ℕ → ℕ) (accurate : IsAccurate tokens) (b : TokenBucket) (now : ℕ)
    → b.last_refill ≤ now
    → ((refill tokens b now).current_size * (2 ^ 50 * 1000000000)
          + (now - (refill tokens b now).last_refill) * b.refill_rate * (2 ^ 50 + 1)
        ≤ b.current_size * (2 ^ 50 * 1000000000)
          + (now - b.last_refill) * b.refill_rate * (2 ^ 50 + 1))
      × ((refill tokens b now).last_refill ≤ now)
      × (b.last_refill ≤ (refill tokens b now).last_refill)
      × ((refill tokens b now).refill_rate ≡ b.refill_rate)
unfolding refill
refilled_size tokens accurate b now h = ground (arith, accurate (now - b.last_refill) b.refill_rate)

pub last-ge :
    (first : ℕ) (calls : List (ℕ × ℕ)) (last : ℕ) → IsTimely first calls last → first ≤ last
last-ge first [] last h = h
last-ge first ((now, size) ∷ calls) last h = omega (arith, h.0, last-ge now calls last h.1)

-- A call that passes takes its size from the refilled bucket.
consumed_size :
    (tokens : ℕ → ℕ → ℕ) (b : TokenBucket) (size now : ℕ)
    → b.refill_rate ≢ unlimited
    → (refill tokens b now).refill_rate ≡ b.refill_rate
    → (if (try_consume tokens b size now).0 then size else 0)
        + (try_consume tokens b size now).1.current_size
      ≤ (refill tokens b now).current_size
unfolding try_consume consumed
consumed_size tokens b size now h k = ground arith

consumed_rest :
    (tokens : ℕ → ℕ → ℕ) (b : TokenBucket) (size now : ℕ)
    → ((try_consume tokens b size now).1.last_refill ≡ (refill tokens b now).last_refill)
      × ((try_consume tokens b size now).1.refill_rate ≡ (refill tokens b now).refill_rate)
unfolding try_consume consumed
consumed_rest tokens b size now = (refl, refl)

with_rate :
    (taken size last time rate time' rate' : ℕ)
    → time ≡ time'
    → rate ≡ rate'
    → taken * (2 ^ 50 * 1000000000)
      ≤ size * (2 ^ 50 * 1000000000) + (last - time) * rate * (2 ^ 50 + 1)
    → taken * (2 ^ 50 * 1000000000)
      ≤ size * (2 ^ 50 * 1000000000) + (last - time') * rate' * (2 ^ 50 + 1)
with_rate taken size last time rate time' rate' same_time same_rate h =
    rw (sym same_time, sym same_rate) h

pub granted-bounded :
    (tokens : ℕ → ℕ → ℕ) (accurate : IsAccurate tokens) (b : TokenBucket) (calls : List (ℕ × ℕ))
    (first last : ℕ)
    → b.refill_rate ≢ unlimited
    → b.last_refill ≤ first
    → IsTimely first calls last
    → granted tokens b calls * (2 ^ 50 * 1000000000)
      ≤ b.current_size * (2 ^ 50 * 1000000000)
        + (last - b.last_refill) * b.refill_rate * (2 ^ 50 + 1)
granted-bounded tokens accurate b [] first last limited old timely = omega arith
granted-bounded tokens accurate b ((now, size) ∷ calls) first last limited old timely =
    let r = refill tokens b now in
    let c = (try_consume tokens b size now).1 in
    let rs = refilled_size tokens accurate b now (omega (arith, timely.0)) in
    let cr = consumed_rest tokens b size now in
    let later = last-ge now calls last timely.1 in
    let ih =
      granted-bounded tokens accurate c calls now last (ground (arith, cr.1, rs.3))
        (ground (arith, cr.0, rs.1)) timely.1 in
    let sized = consumed_size tokens b size now limited rs.3 in
    let spent =
      with_rate (granted tokens c calls) c.current_size last c.last_refill c.refill_rate
        r.last_refill b.refill_rate cr.0 (cr.1 ∙ rs.3) ih in
    omega (
      arith,
      spent,
      sized,
      rs.0,
      split_time r.last_refill now last b.refill_rate rs.1 later,
      split_time b.last_refill now last b.refill_rate (omega (arith, timely.0)) later,
    )

-- In a bucket that is not unlimited, whose smallest size is at most the current one and the
-- current one at most the capacity, a call keeps the sizes in this order, and the largest burst
-- that was seen never falls, is at most the capacity, and covers the call where it passes.
pub try_consume-IsBucket :
    (tokens : ℕ → ℕ → ℕ) (b : TokenBucket) (size now : ℕ)
    → IsBucket b
    → b.refill_rate ≢ unlimited
    → IsBucket (try_consume tokens b size now).1
      × (largest_burst b ≤ largest_burst (try_consume tokens b size now).1)
      × (largest_burst (try_consume tokens b size now).1 ≤ b.max_token_count)
      × ((if (try_consume tokens b size now).0 then size else 0)
          ≤ largest_burst (try_consume tokens b size now).1)
unfolding try_consume consumed refill largest_burst
try_consume-IsBucket tokens b size now (h, k) limited = ground arith
