-- ===== src/Rollback/Inverse.antt =====
-- Rolling a block back right after its insertion.
use rsbanano_node.Prelude.{
  ℕ, suc, ◌+◌, ◌<◌, ◌≤◌, ◌≡◌, ◌≢◌, true, false, Option, none, some, [], ◌∷◌, arith, is_some,
  Option-cases, inl, inr, map_or, leb,
}
use rsbanano_node.Prelude.Word.{u64_mod}
use rsbanano_node.Prelude.Check.{ok}
use rsbanano_node.Prelude.Table.{IsUnique, get, nat_eq}
use rsbanano_node.Core.Types.{Account, BlockHash, PublicKey}
use rsbanano_node.Core.Amount.{wrapping_sub}
use rsbanano_node.Core.Block.{Block, hash, previous}
use rsbanano_node.Core.Saved.{SavedBlock, pending_keys, height, saved_account}
use rsbanano_node.Ledger.Weights.{Weights}
use rsbanano_node.Ledger.Weights.Total.{representation_add-some, representation_add_dual-some}
use rsbanano_node.Ledger.State.{Ledger, Constants}
use rsbanano_node.Ledger.Valid.{IsValid, IsChained}
use rsbanano_node.Validation.Helpers.{
  new_balance, old_balance, is_receive, new_pending_info, new_sideband, new_block_count,
}
use rsbanano_node.Validation.Validate.{create_instructions}
use rsbanano_node.Validation.Balance.{minted}
use rsbanano_node.Insertion.Factory.{create_validator, account_of}
use rsbanano_node.Validation.Accepted.{previous-head, previous-new}
use rsbanano_node.Insertion.Inverse.{process-Written}
use rsbanano_node.Insertion.Process.{process, done}
use rsbanano_node.Insertion.View.{InRange, view}
use rsbanano_node.Insertion.Keeps.{written, process-IsValid, not_there}
use rsbanano_node.Insertion.Chained.{process-IsChained}
use rsbanano_node.Rollback.Planner.{
  RollbackPlanner, plan, RollbackInstructions, RollbackStep, rollback_instructions,
}
use rsbanano_node.Rollback.Factory.{confirmation_of, create_planner}
use rsbanano_node.Rollback.Executor.{execute, roll_back_representative_cache}
use rsbanano_node.Rollback.Performer.{load_account_head, head_step, roll_back_while, rollback}
use rsbanano_node.Rollback.Replan.{owner, planned, planner, head_loaded, saved_found}
use rsbanano_node.Rollback.Undo.{SamePromises, pending_back, plan_done}
use rsbanano_node.Rollback.Restore.{content, accounts_back}
use rsbanano_node.Rollback.Untie.{blocks_back}

roll_back_representative_cache-some :
    (i : RollbackInstructions) (w : Weights) → is_some (roll_back_representative_cache i w) ≡ true
unfolding roll_back_representative_cache
roll_back_representative_cache-some i w = elim (Option-cases i.new_representative) [
  | inl e ↦ ground (
    arith,
    representation_add-some w i.old_account_info.representative
        (wrapping_sub 0 i.old_account_info.balance),
  )
  | inr (x, e) ↦ ground (
    arith,
    representation_add_dual-some w i.old_account_info.representative
        (wrapping_sub 0 i.old_account_info.balance) x i.new_balance,
  )
]

head_step_made :
    (c : Constants) (now : ℕ) (l : Ledger) (block head : SavedBlock) (p : RollbackPlanner)
    (step : RollbackStep)
    → load_account_head l block ≡ ok head
    → create_planner c now l head ≡ ok p
    → plan p ≡ ok step
    → head_step c now l block ≡ ok (head, step)
unfolding head_step
head_step_made c now l block head p step e1 e2 e3 = ground arith

-- The tables say what they said: the same blocks, the same accounts but for their representatives and
-- times of change, and the same amounts to receive, of the same epochs.
pub record Restored (l l2 : Ledger) : Type 0 where
  pub blocks : (j : BlockHash) → get j l2.blocks ≡ get j l.blocks
  pub accounts : (a : Account) → content (get a l2.accounts) ≡ content (get a l.accounts)
  pub pending : SamePromises l2.pending l.pending

module _ (c : Constants) (now now' : ℕ) (l l' : Ledger) (b : Block) (s : SavedBlock) (k : IsValid l)
    (k' : IsValid l') (chain' : IsChained l') (ne : hash b ≢ 0) (r : InRange b)
    (h : process c now l b ≡ done (l', s)) (z : minted (view c now l b) ≡ 0)
    (moves : new_balance (view c now l b) ≡ old_balance (view c now l b)
      → (is_receive (view c now l b) ≡ false) × (new_pending_info (view c now l b) ≡ none))
    (u : IsUnique l.blocks)
    (tip : (x : SavedBlock) → get (previous b) l.blocks ≡ some x → x.sideband.successor ≡ 0)
    (o : map_or (view c now l b).old_account_info 0 (λ x. x.block_count) + 1 < u64_mod) where
  abbrev rep : Option PublicKey
  rep = (planned c now now' l l' b s k k' chain' ne r h).0

  abbrev i : RollbackInstructions
  i = rollback_instructions (planner c now now' l l' b s k k' chain' ne r h rep)

  executed : (l2 : Ledger) × (execute i l' ≡ some l2) × Restored l l2
  unfolding execute rollback_instructions
  executed =
      let (t, e1, same_pending) = pending_back c now now' l l' b s k k' chain' ne r h z moves rep in
      let (l1, e2, same_accounts, p1, b1, w1) =
        accounts_back c now now' l l' b s k k' chain' ne r h rep o t in
      let (blocks, e3, same_blocks) =
        blocks_back c now now' l l' b s k k' chain' ne r h rep u tip in
      elim (Option-cases (roll_back_representative_cache i l1.weights)) [
        | inl e ↦ ground (arith, roll_back_representative_cache-some i l1.weights)
        | inr (w, e4) ↦ elim (Option-cases (execute i l')) [
          | inl e5 ↦ ground arith
          | inr (l2, e5) ↦ (
            l2,
            e5,
            record {
              blocks = λ j. ground (arith, same_blocks j);
              accounts = λ a. ground (arith, same_accounts a);
              pending = λ key. ground (arith, same_pending key);
            },
          )
        ]
      ]

  -- The account's confirmed blocks are blocks it had before.
  module _
      (below : (confirmation_of l (account_of l b)).height
        ≤ map_or (view c now l b).old_account_info 0 (λ x. x.block_count)) where
    unconfirmed : leb (height s) (confirmation_of l' (saved_account s)).height ≡ false
    unfolding create_validator create_instructions new_sideband new_block_count
    unconfirmed =
        let w = written c now l l' b s k ne r h in
        ground (arith, owner c now now' l l' b s k k' chain' ne r h, w.confirmation, w.saved)

    step_made : head_step c now' l' s ≡ ok (s, RollbackStep.roll_back_block i)
    step_made =
        head_step_made c now' l' s s (planner c now now' l l' b s k k' chain' ne r h rep)
          (RollbackStep.roll_back_block i) (head_loaded c now now' l l' b s k k' chain' ne r h)
          (planned c now now' l l' b s k k' chain' ne r h).1
          (plan_done c now now' l l' b s k k' chain' ne r h z moves rep unconfirmed)

    rolled_back :
        (fuel : ℕ)
        → (l2 : Ledger) × (rollback (suc (suc fuel)) c now' l' (hash b)
            ≡ (record { ledger = l2; rolled_back = s ∷ [] }, ok tt))
          × Restored l l2
    unfolding rollback roll_back_while
    rolled_back fuel =
        let (l2, e, d) = executed in
        (
          l2,
          ground (
            arith,
            e,
            step_made,
            saved_found c now now' l l' b s k k' chain' ne r h,
            d.blocks (hash b),
            not_there c now l l' b s k ne r h,
          ),
          d,
        )

-- The block before an accepted one had no successor.
previous_tip :
    (c : Constants) (now : ℕ) (l l' : Ledger) (b : Block) (s : SavedBlock)
    → IsValid l
    → IsChained l
    → hash b ≢ 0
    → process c now l b ≡ done (l', s)
    → (x : SavedBlock) → get (previous b) l.blocks ≡ some x
    → x.sideband.successor ≡ 0
unfolding create_validator
previous_tip c now l l' b s k chain ne h x e =
    let v = view c now l b in
    let a = (process-Written c now l l' b s ne h).accepted in
    elim (Option-cases v.old_account_info) [
      | inl q ↦ ground (arith, chain.no_zero, previous-new v a.previous_correct q)
      | inr (i, q) ↦
          ground (arith, previous-head v i a.previous_correct q, chain.tips v.account i x q)
    ]

-- Rolling back a block right after its insertion succeeds with two turns of the loop, takes back
-- this block alone, and restores the tables: the same blocks, the same accounts but for their
-- representatives and times of change, and the same amounts to receive, of the same epochs. The
-- ledger before is valid and chained; the new block mints nothing, is no send or receive that
-- leaves the balance as it was, and no more blocks of its account are confirmed than the account
-- had before, which has fewer than 2^64 - 1 blocks. The block's hash is not zero, and its balance
-- is within 128 bits.
pub rollback-process :
    (fuel : ℕ) (c : Constants) (now now' : ℕ) (l l' : Ledger) (b : Block) (s : SavedBlock)
    → IsValid l
    → IsChained l
    → hash b ≢ 0
    → InRange b
    → minted (view c now l b) ≡ 0
    → (new_balance (view c now l b) ≡ old_balance (view c now l b)
        → (is_receive (view c now l b) ≡ false) × (new_pending_info (view c now l b) ≡ none))
    → map_or (view c now l b).old_account_info 0 (λ x. x.block_count) + 1 < u64_mod
    → (confirmation_of l (account_of l b)).height
      ≤ map_or (view c now l b).old_account_info 0 (λ x. x.block_count)
    → process c now l b ≡ done (l', s)
    → (l2 : Ledger) × (rollback (suc (suc fuel)) c now' l' (hash b)
        ≡ (record { ledger = l2; rolled_back = s ∷ [] }, ok tt))
      × Restored l l2
rollback-process fuel c now now' l l' b s k chain ne r z moves o below h =
    let k' = process-IsValid c now l l' b s k ne r z h in
    let chain' = process-IsChained c now l l' b s k chain ne r o h in
    rolled_back c now now' l l' b s k k' chain' ne r h z moves chain.unique
      (previous_tip c now l l' b s k chain ne h) o below fuel
