-- ===== src/Cementing/Prunes.antt =====
-- ledger/src/ledger.rs: that `pruning_action` comes to an end without a panic.
use rsbanano_node.Prelude.{
  ℕ, zero, suc, true, false, ◌||◌, ◌+◌, ◌≤◌, ◌<◌, none, some, ◌≡◌, ◌≢◌, refl, sym, ◌∙◌, ap, ◌==◌,
  map_or, Bool-cases, Option-cases, inl, inr, arith,
}
use rsbanano_node.Prelude.Table.{get, nat_eq}
use rsbanano_node.Prelude.Check.{ok}
use rsbanano_node.Core.Types.{BlockHash, is_zero}
use rsbanano_node.Core.Block.{hash, previous}
use rsbanano_node.Core.Saved.{SavedBlock, height}
use rsbanano_node.Ledger.State.{
  Ledger, Constants, contains, confirmed_block, confirmed_exists_or_pruned,
}
use rsbanano_node.Cementing.Pruning.{prune_block, prune_loop, pruning_action, confirmed-prune_block}
use rsbanano_node.Prelude.Word.{add_u64, u64_mod}
use rsbanano_node.Cementing.Line.{
  IsPrunable, get-prune_block, prune_block-IsPrunable, ended, met, Pruned, Pruned-self,
  Pruned-after,
}

was_pruned :
    (l : Ledger) (h : BlockHash)
    → get h l.blocks ≡ none
    → confirmed_exists_or_pruned l h ≡ true
    → contains h l.pruned ≡ true
unfolding confirmed_exists_or_pruned confirmed_block
was_pruned l h e sure = ground (arith, e, sure)

module _ (genesis_hash : BlockHash) (batch_size : ℕ) (batches : batch_size ≢ 0) where
  -- The fuel covers the height of the block, and two turns more.
  abbrev Covers : ℕ → Ledger → BlockHash → Type 0
  Covers fuel l h = (1 ≤ fuel) × ((s : SavedBlock) → get h l.blocks ≡ some s → height s + 2 ≤ fuel)

  prune_loop-Pruned :
      (fuel : ℕ) (l : Ledger) (h : BlockHash) (count : ℕ)
      → IsPrunable l
      → (h ≢ 0 → confirmed_exists_or_pruned l h ≡ true)
      → Covers fuel l h
      → count < u64_mod
      → (l' : Ledger) × (count' : ℕ) × (prune_loop genesis_hash batch_size fuel l h count
          ≡ ok (l', count'))
        × Pruned genesis_hash l h count l' count'
  unfolding prune_loop
  prune_loop-Pruned zero l h count p ready covers small = absurd (omega (arith, covers.0))
  prune_loop-Pruned (suc fuel) l h count p ready covers small =
      elim (Bool-cases (is_zero h || (h == genesis_hash))) [
        | inl b ↦ (
          l,
          count,
          rw (prune_loop, b) refl,
          Pruned-self genesis_hash l h count small (ended h b),
        )
        | inr b ↦
            let sure = ready (ground (arith, b)) in
            elim (Option-cases (get h l.blocks)) [
              | inl e ↦
                  let gone = was_pruned l h e sure in
                  (
                    l,
                    count,
                    rw (prune_loop, b, e, gone) refl,
                    Pruned-self genesis_hash l h count small (met h b e gone),
                  )
              | inr (s, e) ↦
                  let (l', count', ran, rest) =
                    prune_loop-Pruned fuel (prune_block l h) (previous s.block) (add_u64 count 1)
                      (prune_block-IsPrunable l h p sure)
                      (λ ne.
                        confirmed-prune_block l h (previous s.block) sure ∙ p.follows h s e sure ne)
                      (
                        omega (arith, covers.1 s e),
                        λ q found. omega (
                          arith,
                          covers.1 s e,
                          p.falls h s q e (get-prune_block l h (previous s.block) q p.unique found),
                        ),
                      )
                      (omega arith) in
                  (
                    l',
                    count',
                    rw (prune_loop, b, e, sure, some_batch) ran,
                    Pruned-after genesis_hash l h s p e sure count count' l' b rest,
                  )
            ]
      ]
    where
      some_batch : (batch_size == 0) ≡ false
      some_batch = ground (arith, batches)

-- Pruning from a confirmed block on ends without a panic, with the height of the block and two
-- turns. It takes the blocks from this one on, each followed by its previous one, down to the
-- genesis block, the end of the account or a block pruned before: these and no others have gone
-- from the block table to the pruned ones, the count that is returned and that of the ledger
-- have grown by their number, as words of 64 bits, and nothing else has changed; the same
-- blocks are known, and the same are confirmed or pruned. Blocks stand once and above their
-- previous ones, what a confirmed block follows is confirmed, and the batch size is not zero.
pub pruning_action-Pruned :
    (c : Constants) (batch_size fuel : ℕ) (l : Ledger) (h : BlockHash) (s : SavedBlock)
    → IsPrunable l
    → batch_size ≢ 0
    → get h l.blocks ≡ some s
    → confirmed_exists_or_pruned l h ≡ true
    → height s + 2 ≤ fuel
    → (l' : Ledger) × (count : ℕ) × (pruning_action c fuel l h batch_size ≡ ok (l', count))
      × Pruned (hash c.genesis_block.block) l h 0 l' count
unfolding pruning_action
pruning_action-Pruned c batch_size fuel l h s p batches found sure enough =
    prune_loop-Pruned (hash c.genesis_block.block) batch_size batches fuel l h 0 p (λ ne. sure)
      (omega (arith, enough), λ t q. covered t q) (omega arith)
  where
    covered : (t : SavedBlock) → get h l.blocks ≡ some t → height t + 2 ≤ fuel
    covered t q = omega (arith, enough, ap (λ o. map_or o 0 (λ b. height b)) (sym found ∙ q))
