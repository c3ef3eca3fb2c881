-- ===== src/Consensus/VoteRun.antt =====
-- node/src/consensus/vote_processor_queue.rs: that the queue is well formed after each operation, and
-- what the processor gets from it.
use rsbanano_node.Prelude.{
  ℕ, false, ◌+◌, ◌<◌, ◌≡◌, ◌≢◌, refl, ap, List, [], ◌∷◌, arith, Bool-cases, inl, inr,
}
use mathlib.Core.Path.{subst}
use rsbanano_node.Prelude.Check.{Result, ok, err}
use rsbanano_node.Prelude.Word.{u64_mod}
use rsbanano_node.Prelude.Lists.{length}
use rsbanano_node.Core.Vote.{Vote, VoteSource}
use rsbanano_node.Consensus.Tiers.{RepTier, Tiers, tier}
use rsbanano_node.Network.TokenBucket.{min}
use rsbanano_node.Transport.FairQueue.{Stop, panicked, FairQueue, len, is_empty, remove_queue}
use rsbanano_node.Transport.FairQueue.Shape.{
  IsQueue, push-IsQueue, remove_queue-IsQueue, new_queue-IsQueue,
}
use rsbanano_node.Transport.FairQueue.Batch.{Taken, next_batch-Taken, next-clear}
use rsbanano_node.Consensus.VoteQueue.{
  Source, source_ord, VoteProcessorConfig, VoteProcessorQueue, new_vote_queue, enqueue_vote, Waited,
  taken, wait_for_votes, clear_votes, clean_up_dead_channels, clean_up, remove_tiers, all_tiers,
  stop_votes, max_size, queue_priority, Batch,
}

-- The queues that the operations lead to from a new one, none of which is `clear`, while fewer than
-- 2^64 - 1 votes wait. Each vote finds the tiers that were calculated last.
pub data Reached (conf : VoteProcessorConfig) : VoteProcessorQueue → Type 0 where
  started : Reached conf (new_vote_queue conf)
  voted :
      (tiers : Tiers) (q : VoteProcessorQueue) (v : Vote) (channel_id : ℕ) (source : VoteSource)
      → Reached conf q
      → len q.queue + 1 < u64_mod
      → Reached conf (enqueue_vote tiers q v channel_id source).1
  waited :
      (q q' : VoteProcessorQueue) (batch : Batch) (max_batch_size : ℕ)
      → Reached conf q
      → wait_for_votes q max_batch_size ≡ ok (taken batch q')
      → Reached conf q'
  cleaned :
      (q : VoteProcessorQueue) (dead_channel_ids : List ℕ)
      → Reached conf q
      → Reached conf (clean_up_dead_channels q dead_channel_ids)
  stopped : (q : VoteProcessorQueue) → Reached conf q → Reached conf (stop_votes q)

pub remove_tiers-IsQueue :
    (q : FairQueue Source (Vote × VoteSource)) (channel_id : ℕ) (ts : List RepTier)
    → IsQueue q
    → IsQueue (remove_tiers q channel_id ts)
remove_tiers-IsQueue q channel_id [] h = h
remove_tiers-IsQueue q channel_id (t ∷ ts) h =
    remove_tiers-IsQueue (remove_queue q (t, channel_id)) channel_id ts
      (remove_queue-IsQueue q (t, channel_id) h)

clean_up-IsQueue :
    (q : FairQueue Source (Vote × VoteSource)) (dead : List ℕ)
    → IsQueue q
    → IsQueue (clean_up q dead)
clean_up-IsQueue q [] h = h
clean_up-IsQueue q (channel_id ∷ dead) h =
    clean_up-IsQueue (remove_tiers q channel_id all_tiers) dead
      (remove_tiers-IsQueue q channel_id all_tiers h)

-- The queue that a wait leaves.
abbrev queue_left :
    FairQueue Source (Vote × VoteSource) → Result Stop Waited → FairQueue Source (Vote × VoteSource)
queue_left q (ok (taken batch q')) = q'.queue
queue_left q _ = q

queue_left-IsQueue :
    (q : VoteProcessorQueue) (max_batch_size : ℕ)
    → IsQueue q.queue
    → IsQueue (queue_left q.queue (wait_for_votes q max_batch_size))
unfolding wait_for_votes
queue_left-IsQueue q max_batch_size h =
    let (batch, q', taken_batch, count, rest) = next_batch-Taken q.queue max_batch_size h in
    elim (Bool-cases q.stopped) [
      | inl b ↦ rw (wait_for_votes, b) h
      | inr b ↦ elim (Bool-cases (is_empty q.queue)) [
        | inl e ↦ rw (wait_for_votes, b, e) h
        | inr e ↦ rw (wait_for_votes, b, e, taken_batch) rest.0
      ]
    ]

waited-IsQueue :
    (q q' : VoteProcessorQueue) (batch : Batch) (max_batch_size : ℕ)
    → IsQueue q.queue
    → wait_for_votes q max_batch_size ≡ ok (taken batch q')
    → IsQueue q'.queue
waited-IsQueue q q' batch max_batch_size h w =
    subst (λ z. IsQueue z) (ap (queue_left q.queue) w) (queue_left-IsQueue q max_batch_size h)

pub Reached-IsQueue :
    (conf : VoteProcessorConfig) (q : VoteProcessorQueue) → Reached conf q → IsQueue q.queue
unfolding new_vote_queue enqueue_vote clean_up_dead_channels stop_votes
Reached-IsQueue conf _ started =
    new_queue-IsQueue (Vote × VoteSource) (max_size conf) (queue_priority conf)
Reached-IsQueue conf _ (voted tiers q v channel_id source r room) =
    push-IsQueue q.queue (tier tiers v.voting_account, channel_id) (v, source)
      (Reached-IsQueue conf q r) room
Reached-IsQueue conf _ (waited q q' batch max_batch_size r w) =
    waited-IsQueue q q' batch max_batch_size (Reached-IsQueue conf q r) w
Reached-IsQueue conf _ (cleaned q dead r) = clean_up-IsQueue q.queue dead (Reached-IsQueue conf q r)
Reached-IsQueue conf _ (stopped q r) = Reached-IsQueue conf q r

-- What a wait yields: a batch and the queue that is left.
abbrev pub Yields : VoteProcessorQueue → ℕ → Type 0
Yields q max_batch_size =
    (batch : Batch) × (q' : VoteProcessorQueue) × (wait_for_votes q max_batch_size
      ≡ ok (taken batch q'))
    × (length batch ≡ min (len q.queue) max_batch_size)
    × Taken q.queue batch q'.queue

-- In every queue that the operations other than `clear` lead to, whatever tiers each vote finds
-- and while fewer than 2^64 votes wait, the processor gets votes where some wait and the queue
-- is not stopped: as many as there are, up to the size of its batch, and from each source the
-- oldest ones in the order in which they came. It neither panics nor runs for ever.
pub wait_for_votes-Taken :
    (conf : VoteProcessorConfig) (q : VoteProcessorQueue) (max_batch_size : ℕ)
    → Reached conf q
    → q.stopped ≡ false
    → len q.queue ≢ 0
    → Yields q max_batch_size
unfolding wait_for_votes
wait_for_votes-Taken conf q max_batch_size r running waiting =
    let (batch, left, taken_batch, count, rest) =
      next_batch-Taken q.queue max_batch_size (Reached-IsQueue conf q r) in
    let full : is_empty q.queue ≡ false = ground arith in
    (
      batch,
      record q { queue = left },
      rw (wait_for_votes, running, full, taken_batch) refl,
      count,
      rest,
    )

-- After `clear`, where votes were waiting in a queue that is not stopped, the next wait of the
-- processor panics: the queue still counts the votes, and is not empty by its count. The size
-- of the batch is not zero.
pub wait_for_votes-clear :
    (q : VoteProcessorQueue) (max_batch_size : ℕ)
    → q.stopped ≡ false
    → len q.queue ≢ 0
    → max_batch_size ≢ 0
    → wait_for_votes (clear_votes q) max_batch_size ≡ err panicked
unfolding wait_for_votes clear_votes
wait_for_votes-clear q max_batch_size running waiting some_size =
    let (full, one, batch) = next-clear q.queue max_batch_size waiting some_size in
    rw (wait_for_votes, running, full, batch) refl
