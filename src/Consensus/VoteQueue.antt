-- ===== src/Consensus/VoteQueue.antt =====
-- node/src/consensus/vote_processor_queue.rs: the votes that wait for the processor, in a fair queue
-- with one source for each channel and tier. A call behind the lock is state passing; a wait on the
-- condition variable is a result of its own.
use rsbanano_node.Prelude.{
  ℕ, Bool, true, false, ◌&&◌, ◌||◌, ◌≡◌, refl, sym, ap, ◌∙◌, List, [], ◌∷◌, ltb, ◌==◌,
  if◌then◌else◌, arith, not,
}
use rsbanano_node.Prelude.Check.{Result, ok, ◌>>=◌}
use rsbanano_node.Prelude.Word.{mul_u64}
use rsbanano_node.Prelude.Order.{Ord}
use rsbanano_node.Core.Vote.{Vote, VoteSource}
use rsbanano_node.Consensus.Tiers.{RepTier, none_tier, tier_1, tier_2, tier_3, Tiers, tier}
use rsbanano_node.Transport.FairQueue.{
  Stop, FairQueue, new_queue, is_empty, clear, push, next_batch, remove_queue,
}

-- `derive(Ord)`: the order of the declaration.
abbrev pub rank : RepTier → ℕ
rank none_tier = 0
rank tier_1 = 1
rank tier_2 = 2
rank tier_3 = 3

abbrev pub Source : Type 0
Source = RepTier × ℕ

-- The order of pairs.
abbrev pub source_lt : Source → Source → Bool
source_lt (t, c) (s, d) = ltb (rank t) (rank s) || ((rank t == rank s) && ltb c d)

abbrev unrank : ℕ → RepTier
unrank n =
    if n == 0 then none_tier else if n == 1 then tier_1 else if n == 2 then tier_2 else tier_3

unrank-rank : (t : RepTier) → unrank (rank t) ≡ t
unrank-rank none_tier = refl
unrank-rank tier_1 = refl
unrank-rank tier_2 = refl
unrank-rank tier_3 = refl

rank_injective : (t s : RepTier) → rank t ≡ rank s → t ≡ s
rank_injective t s h = sym (unrank-rank t) ∙ ap unrank h ∙ unrank-rank s

pub source_irrefl : (a : Source) → source_lt a a ≡ false
source_irrefl (t, c) = ground arith

pub source_trans :
    (a b c : Source) → source_lt a b ≡ true → source_lt b c ≡ true → source_lt a c ≡ true
source_trans (t, a) (s, b) (r, c) h k = ground arith

pub source_total : (a b : Source) → source_lt a b ≡ false → source_lt b a ≡ false → a ≡ b
source_total (t, a) (s, b) h k = ground (arith, rank_injective t s)

instance abbrev pub source_ord : Ord Source
source_ord = record {
  lt = source_lt;
  lt_irrefl = source_irrefl;
  lt_trans = source_trans;
  lt_total = source_total;
}

pub record VoteProcessorConfig : Type 0 where
  pub max_pr_queue : ℕ
  pub max_non_pr_queue : ℕ
  pub pr_priority : ℕ

pub record VoteProcessorQueue : Type 0 where
  pub stopped : Bool
  pub queue : FairQueue Source (Vote × VoteSource)

abbrev pub max_size : VoteProcessorConfig → Source → ℕ
max_size conf (none_tier, channel) = conf.max_non_pr_queue
max_size conf (tier_1, channel) = conf.max_pr_queue
max_size conf (tier_2, channel) = conf.max_pr_queue
max_size conf (tier_3, channel) = conf.max_pr_queue

abbrev pub queue_priority : VoteProcessorConfig → Source → ℕ
queue_priority conf (tier_3, channel) =
    mul_u64 (mul_u64 conf.pr_priority conf.pr_priority) conf.pr_priority
queue_priority conf (tier_2, channel) = mul_u64 conf.pr_priority conf.pr_priority
queue_priority conf (tier_1, channel) = conf.pr_priority
queue_priority conf (none_tier, channel) = 1

unfoldable pub new_vote_queue : VoteProcessorConfig → VoteProcessorQueue
new_vote_queue conf = record {
  stopped = false;
  queue = new_queue (max_size conf) (queue_priority conf);
}

unfoldable pub enqueue_vote :
    Tiers → VoteProcessorQueue → Vote → ℕ → VoteSource → Bool × VoteProcessorQueue
enqueue_vote tiers q v channel_id source =
    let (added, queue) = push q.queue (tier tiers v.voting_account, channel_id) (v, source) in
    (added, record q { queue = queue })

abbrev pub Batch : Type 0
Batch = List (Source × (Vote × VoteSource))

pub data Waited : Type 0 where
  taken : Batch → VoteProcessorQueue → Waited
  waits : Waited

unfoldable pub wait_for_votes : VoteProcessorQueue → ℕ → Result Stop Waited
wait_for_votes q max_batch_size =
    if q.stopped
    then ok (taken [] q)
    else if not (is_empty q.queue)
    then (next_batch q.queue max_batch_size >>= λ batch.
        ok (taken batch.0 (record q { queue = batch.1 })))
    else ok waits

unfoldable pub clear_votes : VoteProcessorQueue → VoteProcessorQueue
clear_votes q = record q { queue = clear q.queue }

unfoldable pub stop_votes : VoteProcessorQueue → VoteProcessorQueue
stop_votes q = record q { stopped = true }

abbrev pub remove_tiers :
    FairQueue Source (Vote × VoteSource) → ℕ → List RepTier → FairQueue Source (Vote × VoteSource)
remove_tiers q channel_id [] = q
remove_tiers q channel_id (t ∷ ts) = remove_tiers (remove_queue q (t, channel_id)) channel_id ts

abbrev pub all_tiers : List RepTier
all_tiers = none_tier ∷ tier_1 ∷ tier_2 ∷ tier_3 ∷ []

abbrev pub clean_up :
    FairQueue Source (Vote × VoteSource) → List ℕ → FairQueue Source (Vote × VoteSource)
clean_up q [] = q
clean_up q (channel_id ∷ dead_channel_ids) =
    clean_up (remove_tiers q channel_id all_tiers) dead_channel_ids

unfoldable pub clean_up_dead_channels : VoteProcessorQueue → List ℕ → VoteProcessorQueue
clean_up_dead_channels q dead_channel_ids = record q { queue = clean_up q.queue dead_channel_ids }
