-- ===== src/Network/TokenBucket.antt =====
-- network/src/token_bucket.rs: the token bucket of the bandwidth limits. An instant is a number of
-- nanoseconds, which each operation reads from the clock and so takes as `now`; `tokens` is the
-- floating-point product of the refill, from the nanoseconds elapsed and the rate.
use rsbanano_node.Prelude.{ℕ, Bool, ◌||◌, ◌-◌, leb, ltb, ◌==◌, if◌then◌else◌}
use rsbanano_node.Prelude.Word.{add_u64}

pub record TokenBucket : Type 0 where
  pub last_refill : ℕ
  pub current_size : ℕ
  pub max_token_count : ℕ
  pub smallest_size : ℕ
  pub refill_rate : ℕ

abbrev pub unlimited : ℕ
unlimited = 1000000000

abbrev pub min : ℕ → ℕ → ℕ
min a b = if leb a b then a else b

-- `reset`, which leaves nothing of the old bucket.
unfoldable pub reset : ℕ → ℕ → ℕ → TokenBucket
reset max_token_count refill_rate now =
    if (max_token_count == 0) || (refill_rate == 0)
    then record {
      last_refill = now;
      current_size = unlimited;
      max_token_count = unlimited;
      smallest_size = unlimited;
      refill_rate = unlimited;
    }
    else record {
      last_refill = now;
      current_size = max_token_count;
      max_token_count = max_token_count;
      smallest_size = max_token_count;
      refill_rate = refill_rate;
    }

abbrev pub new : ℕ → ℕ → ℕ → TokenBucket
new max_token_count refill_rate now = reset max_token_count refill_rate now

unfoldable pub largest_burst : TokenBucket → ℕ
largest_burst b = b.max_token_count - b.smallest_size

-- `duration_since`, which is zero where the clock stepped back.
abbrev pub elapsed : TokenBucket → ℕ → ℕ
elapsed b now = now - b.last_refill

module _ (tokens : ℕ → ℕ → ℕ) where
  unfoldable pub refill : TokenBucket → ℕ → TokenBucket
  refill b now =
      let tokens_to_add = tokens (elapsed b now) b.refill_rate in
      if ltb 0 tokens_to_add
      then record b {
        current_size = min (add_u64 b.current_size tokens_to_add) b.max_token_count;
        last_refill = now;
      }
      else b

  abbrev deducted : TokenBucket → ℕ → ℕ
  deducted b tokens_required =
      if leb tokens_required b.current_size
      then b.current_size - tokens_required
      else if tokens_required == unlimited
      then 0
      else b.current_size

  -- What is left of the refilled bucket, with the smallest size that was seen.
  unfoldable pub consumed : TokenBucket → ℕ → TokenBucket
  consumed b tokens_required = record b {
    current_size = deducted b tokens_required;
    smallest_size = min b.smallest_size (deducted b tokens_required);
  }

  unfoldable pub try_consume : TokenBucket → ℕ → ℕ → Bool × TokenBucket
  try_consume b tokens_required now =
      let refilled = refill b now in
      (
        leb tokens_required refilled.current_size || (refilled.refill_rate == unlimited),
        consumed refilled tokens_required,
      )
