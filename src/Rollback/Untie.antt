-- ===== src/Rollback/Untie.antt =====
-- Rolling a block back right after its insertion: the block table.
use rsbanano_node.Prelude.{
  ℕ, ◌≡◌, ◌≢◌, Option, none, some, arith, Option-cases, Bool-cases, inl, inr, ◌∙◌, ◌==◌, ==_iff,
}
use rsbanano_node.Prelude.Table.{
  IsUnique, get, put, del, erase, nat_eq, get-put_self, get-put_ne, get-erase_ne, get-erase_self,
}
use rsbanano_node.Core.Types.{BlockHash, PublicKey}
use rsbanano_node.Core.Block.{Block, hash, previous}
use rsbanano_node.Core.Saved.{SavedBlock, pending_keys}
use rsbanano_node.Ledger.Blocks.{
  Blocks, with_successor, set_successor, successor_clear, delete_block,
}
use rsbanano_node.Ledger.Blocks.Laws.{touched, get-put_block_ne, put_block-IsUnique}
use rsbanano_node.Ledger.State.{Ledger, Constants}
use rsbanano_node.Ledger.Valid.{IsValid, IsChained}
use rsbanano_node.Validation.Helpers.{BlockValidator}
use rsbanano_node.Insertion.Factory.{create_validator, load_previous_block}
use rsbanano_node.Insertion.Process.{process, done}
use rsbanano_node.Insertion.View.{InRange, view}
use rsbanano_node.Insertion.Total.{previous_found}
use rsbanano_node.Insertion.Keeps.{written, not_there}
use rsbanano_node.Rollback.Planner.{RollbackInstructions, rollback_instructions}
use rsbanano_node.Rollback.Executor.{update_block_table}
use rsbanano_node.Rollback.Replan.{own, planner, saved_found}

module _ (c : Constants) (now now' : ℕ) (l l' : Ledger) (b : Block) (s : SavedBlock) (k : IsValid l)
    (k' : IsValid l') (chain' : IsChained l') (ne : hash b ≢ 0) (r : InRange b)
    (h : process c now l b ≡ done (l', s)) (rep : Option PublicKey) (u : IsUnique l.blocks)
    (tip : (x : SavedBlock) → get (previous b) l.blocks ≡ some x → x.sideband.successor ≡ 0) where
  abbrev v : BlockValidator
  v = view c now l b

  abbrev i : RollbackInstructions
  i = rollback_instructions (planner c now now' l l' b s k k' chain' ne r h rep)

  same_block : s.block ≡ b
  same_block = own c now now' l l' b s k k' chain' ne r h

  IsUnique-kept : IsUnique l'.blocks
  IsUnique-kept = put_block-IsUnique l.blocks l'.blocks s u (written c now l l' b s k ne r h).blocks

  -- The table without the new block is the old one, but for the successor of the previous block.
  without :
      (j : BlockHash)
      → get j (erase (hash b) l'.blocks) ≡ (elim (get j l.blocks) as (λ _. Option SavedBlock) [
        | none ↦ none
        | some x ↦ some (touched s j x)
      ])
  without j = elim (Bool-cases (hash b == j)) [
    | inl q ↦
        let same : hash b ≡ j = (==_iff (hash b) j).0 q in
        ground (
          arith,
          same,
          get-erase_self (hash b) l'.blocks IsUnique-kept,
          not_there c now l l' b s k ne r h,
        )
    | inr q ↦
        let other : hash b ≢ j = λ x. ground (arith, (==_iff (hash b) j).1 x) in
        get-erase_ne (hash b) j l'.blocks other
        ∙ get-put_block_ne l.blocks l'.blocks s j (λ x. ground (arith, same_block))
            (written c now l l' b s k ne r h).blocks
  ]

  untied : (x : SavedBlock) → get (previous b) l.blocks ≡ some x → with_successor 0 x ≡ x
  untied x e = ground (arith, tip x e)

  pub blocks_back :
      (t : Blocks) × (update_block_table i l'.blocks ≡ some t)
      × ((j : BlockHash) → get j t ≡ get j l.blocks)
  unfolding create_validator update_block_table delete_block successor_clear set_successor del
      rollback_instructions load_previous_block
  blocks_back =
      let f = saved_found c now now' l l' b s k k' chain' ne r h in
      let rest = erase (hash b) l'.blocks in
      elim (Bool-cases (previous b == 0)) [
        | inl z ↦ (
          rest,
          ground (arith, f, same_block),
          λ j. elim (Option-cases (get j l.blocks)) [
            | inl e ↦ ground (arith, without j)
            | inr (x, e) ↦ ground (arith, without j, same_block)
          ],
        )
        | inr z ↦ elim (Option-cases (get (previous b) l.blocks)) [
          | inl e ↦
              ground
                (arith, previous_found v (written c now l l' b s k ne r h).accepted.predecessor)
          | inr (x, e) ↦ (
            put (previous b) (with_successor 0 (touched s (previous b) x)) rest,
            ground (arith, f, same_block, without (previous b), k.stored (previous b) x e),
            λ j. elim (Bool-cases (previous b == j)) [
              | inl q ↦
                  let same : previous b ≡ j = (==_iff (previous b) j).0 q in
                  ground (
                    arith,
                    same,
                    untied x e,
                    same_block,
                    get-put_self (previous b) (with_successor 0 (touched s (previous b) x)) rest,
                  )
              | inr q ↦
                  let other : previous b ≢ j = λ y. ground (arith, (==_iff (previous b) j).1 y) in
                  let step =
                    get-put_ne (previous b) j (with_successor 0 (touched s (previous b) x)) rest
                      other in
                  elim (Option-cases (get j l.blocks)) [
                    | inl w ↦ ground (arith, step, without j)
                    | inr (y, w) ↦ ground (arith, step, without j, same_block)
                  ]
            ],
          )
        ]
      ]
