-- ===== src/Consensus/DeadChannels.antt =====
-- node/src/consensus/vote_processor_queue.rs: the votes that are dropped with their channels.
use rsbanano_node.Prelude.{
  ℕ, ◌≡◌, ◌≢◌, refl, ap, ◌∙◌, List, [], ◌∷◌, ◌++◌, ◌==◌, if◌then◌else◌, arith, Bool-cases, inl, inr,
  ==_iff,
}
use mathlib.Core.Path.{subst}
use rsbanano_node.Ledger.State.{contains}
use rsbanano_node.Core.Vote.{Vote, VoteSource}
use rsbanano_node.Consensus.Tiers.{RepTier, none_tier, tier_1, tier_2, tier_3}
use rsbanano_node.Transport.FairQueue.{FairQueue, remove_queue}
use rsbanano_node.Transport.FairQueue.Shape.{
  IsQueue, items, remove_queue-IsQueue, items-remove_queue, items-remove_queue_ne,
}
use rsbanano_node.Prelude.Order.Lookup.{same, same-true, same-false}
use rsbanano_node.Consensus.VoteQueue.{
  Source, source_ord, VoteProcessorQueue, clean_up_dead_channels, clean_up, remove_tiers, all_tiers,
}
use rsbanano_node.Consensus.VoteRun.{remove_tiers-IsQueue}

abbrev Votes : Type 0
Votes = FairQueue Source (Vote × VoteSource)

stays_empty :
    (q : Votes) (key source : Source)
    → IsQueue q
    → items q source ≡ []
    → items (remove_queue q key) source ≡ []
stays_empty q key source h e = elim (Bool-cases (same key source)) [
  | inl b ↦
      subst (λ z. items (remove_queue q key) z ≡ []) (same-true key source b)
        (items-remove_queue q key h.0)
  | inr b ↦ items-remove_queue_ne q key source (same-false key source b) ∙ e
]

remove_tiers-empty :
    (q : Votes) (channel_id : ℕ) (ts : List RepTier) (source : Source)
    → IsQueue q
    → items q source ≡ []
    → items (remove_tiers q channel_id ts) source ≡ []
remove_tiers-empty q channel_id [] source h e = e
remove_tiers-empty q channel_id (t ∷ ts) source h e =
    remove_tiers-empty (remove_queue q (t, channel_id)) channel_id ts source
      (remove_queue-IsQueue q (t, channel_id) h) (stays_empty q (t, channel_id) source h e)

-- A tier of the list, and those before it.
removed_at :
    (q : Votes) (channel_id : ℕ) (t : RepTier) (before after : List RepTier)
    → IsQueue q
    → items (remove_tiers q channel_id (before ++ t ∷ after)) (t, channel_id) ≡ []
removed_at q channel_id t [] after h =
    remove_tiers-empty (remove_queue q (t, channel_id)) channel_id after (t, channel_id)
      (remove_queue-IsQueue q (t, channel_id) h) (items-remove_queue q (t, channel_id) h.0)
removed_at q channel_id t (s ∷ before) after h =
    removed_at (remove_queue q (s, channel_id)) channel_id t before after
      (remove_queue-IsQueue q (s, channel_id) h)

all_removed :
    (q : Votes) (channel_id : ℕ) (t : RepTier)
    → IsQueue q
    → items (remove_tiers q channel_id all_tiers) (t, channel_id) ≡ []
all_removed q channel_id none_tier h =
    removed_at q channel_id none_tier [] (tier_1 ∷ tier_2 ∷ tier_3 ∷ []) h
all_removed q channel_id tier_1 h =
    removed_at q channel_id tier_1 (none_tier ∷ []) (tier_2 ∷ tier_3 ∷ []) h
all_removed q channel_id tier_2 h =
    removed_at q channel_id tier_2 (none_tier ∷ tier_1 ∷ []) (tier_3 ∷ []) h
all_removed q channel_id tier_3 h =
    removed_at q channel_id tier_3 (none_tier ∷ tier_1 ∷ tier_2 ∷ []) [] h

others_kept :
    (q : Votes) (channel_id : ℕ) (ts : List RepTier) (t : RepTier) (other : ℕ)
    → channel_id ≢ other
    → items (remove_tiers q channel_id ts) (t, other) ≡ items q (t, other)
others_kept q channel_id [] t other ne = refl
others_kept q channel_id (s ∷ ts) t other ne =
    others_kept (remove_queue q (s, channel_id)) channel_id ts t other ne
    ∙ items-remove_queue_ne q (s, channel_id) (t, other) (λ e. ne (ap (λ p. p.1) e))

clean_up-empty :
    (q : Votes) (dead : List ℕ) (source : Source)
    → IsQueue q
    → items q source ≡ []
    → items (clean_up q dead) source ≡ []
clean_up-empty q [] source h e = e
clean_up-empty q (c ∷ dead) source h e =
    clean_up-empty (remove_tiers q c all_tiers) dead source (remove_tiers-IsQueue q c all_tiers h)
      (remove_tiers-empty q c all_tiers source h e)

items-clean_up :
    (q : Votes) (dead : List ℕ) (t : RepTier) (channel_id : ℕ)
    → IsQueue q
    → items (clean_up q dead) (t, channel_id)
      ≡ (if contains channel_id dead then [] else items q (t, channel_id))
items-clean_up q [] t channel_id h = refl
items-clean_up q (c ∷ dead) t channel_id h =
    let cleaned = remove_tiers q c all_tiers in
    let still = remove_tiers-IsQueue q c all_tiers h in
    elim (Bool-cases (c == channel_id)) [
      | inl b ↦ rw b (
          clean_up-empty cleaned dead (t, channel_id) still
            (subst (λ z. items cleaned (t, z) ≡ []) ((==_iff c channel_id).0 b)
              (all_removed q c t h)))
      | inr b ↦ rw b (
          items-clean_up cleaned dead t channel_id still
          ∙ rw (others_kept q c all_tiers t channel_id (λ e. ground (arith, b, e))) refl)
    ]

-- Cleaning up drops the votes of the dead channels, in all tiers, and keeps those of the
-- others, in the order in which they wait. The keys of the queue are in order, its current key
-- is one of them if there is one, and its count is that of its items, below 2^64.
pub items-clean_up_dead_channels :
    (q : VoteProcessorQueue) (dead_channel_ids : List ℕ) (t : RepTier) (channel_id : ℕ)
    → IsQueue q.queue
    → items (clean_up_dead_channels q dead_channel_ids).queue (t, channel_id)
      ≡ (if contains channel_id dead_channel_ids then [] else items q.queue (t, channel_id))
unfolding clean_up_dead_channels
items-clean_up_dead_channels q dead t channel_id h = items-clean_up q.queue dead t channel_id h
