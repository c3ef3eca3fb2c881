-- ===== src/Insertion/Once.antt =====
-- Processing a block again, forks, and receiving twice.
use rsbanano_node.Prelude.{ℕ, ◌≡◌, ◌≢◌, true, none, arith, is_some, Option-cases, inl, inr}
use rsbanano_node.Prelude.Table.{get, nat_eq, get-erase_self}
use rsbanano_node.Prelude.Check.{ok, err}
use rsbanano_node.Core.Block.{Block, hash, previous}
use rsbanano_node.Core.Saved.{SavedBlock, pending_keys}
use rsbanano_node.Ledger.State.{Ledger, Constants, BlockStatus, block_exists_or_pruned}
use rsbanano_node.Ledger.Valid.{IsValid}
use rsbanano_node.Validation.Helpers.{
  BlockValidator, is_receive, delete_received_pending_info, new_pending_info, new_account_info,
  is_send,
}
use rsbanano_node.Validation.Rules.{
  ensure_block_does_not_exist_yet, epoch_block_pre_checks, epoch_signature_valid,
}
use rsbanano_node.Validation.Validate.{validate}
use rsbanano_node.Validation.Accepted.{previous-head, receives_pending}
use rsbanano_node.Insertion.Factory.{
  create_validator, load_previous_block, load_pending, account_of, receive_key,
}
use rsbanano_node.Insertion.Process.{process, done, rejected}
use rsbanano_node.Insertion.Inverse.{Written, process-Written}
use rsbanano_node.Insertion.After.{accounts_after_self}
use rsbanano_node.Insertion.Total.{previous_found}
use rsbanano_node.Insertion.View.{InRange, view}
use rsbanano_node.Insertion.Keeps.{written, new_found, old_found, not_own_previous}

-- The checks before the others read the ledger only for the previous block.
pre_checks_again :
    (c : Constants) (now now' : ℕ) (l l' : Ledger) (b : Block)
    → epoch_block_pre_checks (create_validator c l now b) ≡ ok tt
    → (previous b ≢ 0 → is_some (load_previous_block l' b) ≡ true)
    → epoch_block_pre_checks (create_validator c l' now' b) ≡ ok tt
unfolding epoch_block_pre_checks create_validator epoch_signature_valid
pre_checks_again c now now' l l' b h p = ground arith

refused_old :
    (v : BlockValidator)
    → epoch_block_pre_checks v ≡ ok tt
    → v.block_exists ≡ true
    → validate v ≡ err BlockStatus.old
unfolding validate ensure_block_does_not_exist_yet
refused_old v p e = ground arith

module _ (c : Constants) (now now' : ℕ) (l l' : Ledger) (b : Block) (s : SavedBlock) (k : IsValid l)
    (ne : hash b ≢ 0) (r : InRange b) (h : process c now l b ≡ done (l', s)) where
  w : Written (view c now l b) l l' s
  w = written c now l l' b s k ne r h

  previous_still : previous b ≢ 0 → is_some (load_previous_block l' b) ≡ true
  unfolding create_validator load_previous_block
  previous_still z = elim (Option-cases (get (previous b) l.blocks)) [
    | inl e ↦ ground (arith, previous_found (view c now l b) w.accepted.predecessor)
    | inr (x, e) ↦ ground (arith, old_found c now l l' b s k ne r h (previous b) x e)
  ]

  exists_now : (create_validator c l' now' b).block_exists ≡ true
  unfolding create_validator block_exists_or_pruned
  exists_now = ground (arith, new_found c now l l' b s k ne r h)

-- A block that was inserted into a valid ledger is refused as old when it is processed again. The
-- block's hash is not zero, and its balance is within 128 bits.
pub process-process :
    (c : Constants) (now now' : ℕ) (l l' : Ledger) (b : Block) (s : SavedBlock)
    → IsValid l
    → hash b ≢ 0
    → InRange b
    → process c now l b ≡ done (l', s)
    → process c now' l' b ≡ rejected BlockStatus.old
unfolding process
process-process c now now' l l' b s k ne r h =
    let a = (w c now now' l l' b s k ne r h).accepted in
    ground (
      arith,
      refused_old (create_validator c l' now' b)
          (pre_checks_again c now now' l l' b a.pre_checks
            (previous_still c now now' l l' b s k ne r h))
          (exists_now c now now' l l' b s k ne r h),
    )

-- Once a block was inserted into a valid ledger, no other block for the same account that names
-- the same previous block (or none, as a first block) is accepted: a fork is refused. The blocks'
-- hashes are not zero, and the balance of the first is within 128 bits.
pub process-fork :
    (c : Constants) (now now' : ℕ) (l l' l2 : Ledger) (b b2 : Block) (s s2 : SavedBlock)
    → IsValid l
    → hash b ≢ 0
    → hash b2 ≢ 0
    → InRange b
    → process c now l b ≡ done (l', s)
    → account_of l' b2 ≡ account_of l b
    → previous b2 ≡ previous b
    → process c now' l' b2 ≢ done (l2, s2)
unfolding create_validator new_account_info
process-fork c now now' l l' l2 b b2 s s2 k ne ne2 r h same p h2 =
    let w1 = written c now l l' b s k ne r h in
    let w2 = process-Written c now' l' l2 b2 s2 ne2 h2 in
    let f = accounts_after_self (view c now l b) l.accounts in
    ground (
      arith,
      f,
      w1.accounts,
      not_own_previous c now l l' b s k ne r h,
      previous-head (view c now' l' b2) (new_account_info (view c now l b))
          w2.accepted.previous_correct,
    )

-- The entry that an inserted block received is gone.
received_gone :
    (c : Constants) (now : ℕ) (l l' : Ledger) (b : Block) (s : SavedBlock)
    → IsValid l
    → hash b ≢ 0
    → process c now l b ≡ done (l', s)
    → is_receive (view c now l b) ≡ true
    → get (receive_key l b) l'.pending ≡ none
unfolding create_validator delete_received_pending_info new_pending_info is_receive is_send
received_gone c now l l' b s k ne h i =
    let w = process-Written c now l l' b s ne h in
    ground (arith, w.pending, get-erase_self (receive_key l b) l.pending k.pending_unique)

-- What an accepted block has received is not received again: another block that receives from the
-- same source into the same account is refused. The ledger before is valid, and the blocks' hashes
-- are not zero.
pub process-double_receive :
    (c : Constants) (now now' : ℕ) (l l' l2 : Ledger) (b b2 : Block) (s s2 : SavedBlock)
    → IsValid l
    → hash b ≢ 0
    → hash b2 ≢ 0
    → process c now l b ≡ done (l', s)
    → is_receive (view c now l b) ≡ true
    → is_receive (view c now' l' b2) ≡ true
    → receive_key l' b2 ≡ receive_key l b
    → process c now' l' b2 ≢ done (l2, s2)
unfolding create_validator load_pending
process-double_receive c now now' l l' l2 b b2 s s2 k ne ne2 h i i2 same h2 =
    let w2 = process-Written c now' l' l2 b2 s2 ne2 h2 in
    ground (
      arith,
      received_gone c now l l' b s k ne h i,
      receives_pending (view c now' l' b2) w2.accepted.pending_correct i2,
    )
