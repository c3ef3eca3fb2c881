-- ===== src/Tests/Queues.antt =====
-- The limits, the fair queue and the queue of votes at small inputs.
use rsbanano_node.Prelude.{
  ℕ, true, false, ◌+◌, ◌-◌, ◌*◌, ◌/◌, ◌%◌, ◌^◌, ◌≤◌, ◌≡◌, ◌≢◌, refl, some, List, [], ◌∷◌, arith,
  if◌then◌else◌,
}
use rsbanano_node.Prelude.Check.{err}
use rsbanano_node.Prelude.Order.{nat_ord, lookup}
use rsbanano_node.Prelude.Lists.{length}
use rsbanano_node.Prelude.Word.{u64_mod}
use rsbanano_node.Prelude.Table.{Table, nat_eq, total, get}
use rsbanano_node.Network.TokenBucket.{TokenBucket, largest_burst, try_consume}
use rsbanano_node.Network.Burst.{IsAccurate, IsBucket, try_consume-IsBucket}
use rsbanano_node.Network.Bandwidth.{
  generic, bootstrap, BandwidthLimiterConfig, config_burst, config_limit, new_bandwidth,
}
use rsbanano_node.Network.Limits.{Message, passed, passed-bounded}
use rsbanano_node.Transport.FairQueue.{
  panicked, Entry, FairQueue, new_queue, push, push_entry, len, seek, seek_fuel,
}
use rsbanano_node.Transport.FairQueue.Rotation.{rotation}
use rsbanano_node.Transport.FairQueue.Seek.{seek-rotation}
use rsbanano_node.Transport.FairQueue.Shape.{IsQueue, items}
use rsbanano_node.Transport.FairQueue.Batch.{YieldsBatch, next_batch-Taken}
use rsbanano_node.Transport.FairQueue.Info.{compacted_info, sum_max, compacted_info-total_len}
use rsbanano_node.Core.Vote.{
  Vote, live, Shows, signed_vote, new_vote, new_final, final_timestamp, new_vote-timestamp,
}
use rsbanano_node.Consensus.Tiers.{
  Tiers, tier_1, tier_3, tier, calculate_tiers, tier_of, tier-calculate_tiers,
}
use rsbanano_node.Consensus.VoteQueue.{
  source_ord, VoteProcessorConfig, VoteProcessorQueue, new_vote_queue, enqueue_vote, wait_for_votes,
  clear_votes, clean_up_dead_channels,
}
use rsbanano_node.Consensus.VoteRun.{
  Reached, started, voted, Reached-IsQueue, Yields, wait_for_votes-Taken, wait_for_votes-clear,
}
use rsbanano_node.Consensus.DeadChannels.{items-clean_up_dead_channels}

-- A refill without rounding.
abbrev whole_tokens : ℕ → ℕ → ℕ
whole_tokens time rate = time * rate / 1000000000

whole_tokens-IsAccurate : IsAccurate whole_tokens
whole_tokens-IsAccurate time rate = omega arith

abbrev whole_burst : ℕ → ℕ → ℕ
whole_burst limit ratio = limit * ratio

abbrev config : BandwidthLimiterConfig ℕ
config = record {
  generic_limit = 10;
  generic_burst_ratio = 3;
  bootstrap_limit = 5;
  bootstrap_burst_ratio = 1;
}

abbrev messages : List Message
messages =
    (100, 20, generic) ∷ (200, 4, bootstrap) ∷ (300, 20, generic) ∷ (1000000200, 12, generic) ∷ []

passed-bounded_example :
    passed whole_tokens generic (new_bandwidth whole_burst config 7) messages
      * (2 ^ 50 * 1000000000)
    ≤ config_burst whole_burst config generic * (2 ^ 50 * 1000000000)
      + (2000000000 - 7) * config_limit whole_burst config generic * (2 ^ 50 + 1)
passed-bounded_example =
    passed-bounded whole_burst whole_tokens whole_tokens-IsAccurate config generic messages 7
      2000000000 (omega arith) (omega arith) (omega arith) (omega arith)

abbrev bucket : TokenBucket
bucket = record {
  last_refill = 5;
  current_size = 20;
  max_token_count = 30;
  smallest_size = 20;
  refill_rate = 10;
}

try_consume-IsBucket_example :
    IsBucket (try_consume whole_tokens bucket 15 5).1
    × (largest_burst bucket ≤ largest_burst (try_consume whole_tokens bucket 15 5).1)
    × (largest_burst (try_consume whole_tokens bucket 15 5).1 ≤ 30)
    × ((if (try_consume whole_tokens bucket 15 5).0 then 15 else 0)
        ≤ largest_burst (try_consume whole_tokens bucket 15 5).1)
try_consume-IsBucket_example =
    try_consume-IsBucket whole_tokens bucket 15 5 (omega arith, omega arith) (omega arith)

abbrev entry_of : List ℕ → Entry ℕ
entry_of requests = record { requests = requests; priority = 2; max_size = 8 }

-- Three sources, of which the second has no items.
abbrev queue : FairQueue ℕ ℕ
queue = record {
  queues = (3, entry_of (31 ∷ [])) ∷ (4, entry_of []) ∷ (5, entry_of (51 ∷ 52 ∷ [])) ∷ [];
  current_queue_key = some 3;
  counter = 2;
  total_len = 3;
  max_size_query = λ k. 8;
  priority_query = λ k. 2;
}

queue-IsQueue : IsQueue queue
unfolding length lookup
queue-IsQueue = (((refl, (refl, tt)), ((refl, tt), (tt, tt))), refl, refl, omega arith)

seek-rotation_example :
    seek (seek_fuel queue.queues) queue.queues (some 3) ≡ rotation queue.queues (some 3)
unfolding lookup
seek-rotation_example =
    seek-rotation queue.queues (some 3) ((refl, (refl, tt)), ((refl, tt), (tt, tt))) refl

next_batch-Taken_example : YieldsBatch queue 2
next_batch-Taken_example = next_batch-Taken queue 2 queue-IsQueue

abbrev parity : ℕ → ℕ
parity n = n - n / 2 * 2

compacted_info-total_len_example :
    (total (λ i. i.size) (compacted_info parity queue).queues ≡ 3)
    × ((compacted_info parity queue).total_size ≡ 3)
    × (total (λ i. i.max_size) (compacted_info parity queue).queues % u64_mod
        ≡ (compacted_info parity queue).total_max_size)
    × ((compacted_info parity queue).total_max_size ≡ sum_max parity queue.queues % u64_mod)
compacted_info-total_len_example = compacted_info-total_len parity queue queue-IsQueue

abbrev conf : VoteProcessorConfig
conf = record { max_pr_queue = 256; max_non_pr_queue = 32; pr_priority = 3 }

abbrev weights_online : Table ℕ ℕ
weights_online = (10, 4000) ∷ (20, 30) ∷ []

abbrev tiers : Tiers
tiers = calculate_tiers 10000 weights_online

tier-calculate_tiers_example : tier tiers 10 ≡ tier_of 10000 (get 10 weights_online)
unfolding get
tier-calculate_tiers_example = tier-calculate_tiers 10000 weights_online 10 (refl, (refl, tt))

-- A representative with exactly a hundredth of the weight is in the tier below.
at_threshold : tier (calculate_tiers 10000 ((10, 100) ∷ [])) 10 ≡ tier_1
unfolding tier calculate_tiers
at_threshold = refl

abbrev sign : ℕ → List ℕ → ℕ
sign timestamp hashes = timestamp + 1

new_vote-timestamp_example :
    Shows (new_final sign 10 (7 ∷ [])) true final_timestamp 15
    × Shows (new_vote sign 10 1605 9 (7 ∷ [])) false 1600 9
unfolding length
new_vote-timestamp_example =
    new_vote-timestamp sign 10 1605 9 (7 ∷ []) (omega arith) (omega arith) (omega arith)
      (omega arith)

abbrev a_vote : Vote
a_vote = signed_vote sign 10 1609 (7 ∷ [])

abbrev voted_queue : VoteProcessorQueue
voted_queue = (enqueue_vote tiers (new_vote_queue conf) a_vote 77 live).1

voted_queue-Reached : Reached conf voted_queue
unfolding new_vote_queue new_queue
voted_queue-Reached = voted tiers (new_vote_queue conf) a_vote 77 live started (omega arith)

voted_running : voted_queue.stopped ≡ false
unfolding enqueue_vote new_vote_queue
voted_running = refl

voted_waits : len voted_queue.queue ≢ 0
unfolding enqueue_vote new_vote_queue new_queue push push_entry length lookup tier calculate_tiers
voted_waits = omega arith

wait_for_votes-Taken_example : Yields voted_queue 4
wait_for_votes-Taken_example =
    wait_for_votes-Taken conf voted_queue 4 voted_queue-Reached voted_running voted_waits

wait_for_votes-clear_example : wait_for_votes (clear_votes voted_queue) 4 ≡ err panicked
wait_for_votes-clear_example =
    wait_for_votes-clear voted_queue 4 voted_running voted_waits (omega arith)

items-clean_up_dead_channels_example :
    items (clean_up_dead_channels voted_queue (5 ∷ 77 ∷ [])).queue (tier_3, 77) ≡ []
items-clean_up_dead_channels_example =
    items-clean_up_dead_channels voted_queue (5 ∷ 77 ∷ []) tier_3 77
      (Reached-IsQueue conf voted_queue voted_queue-Reached)
