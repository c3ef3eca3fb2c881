-- ===== src/Insertion/Supply.antt =====
-- The money supply under an insertion.
use rsbanano_node.Prelude.{
  ℕ, ◌+◌, ◌≡◌, ◌≢◌, false, none, some, arith, Option-cases, Bool-cases, inl, inr, map_or, refl,
}
use rsbanano_node.Prelude.Table.{
  Table, IsUnique, get, erase, nat_eq, total, total-put, total-put_new, total-erase, get-erase_self,
  get-erase-none,
}
use rsbanano_node.Prelude.Check.{ok}
use rsbanano_node.Core.Types.{Account}
use rsbanano_node.Core.Block.{Block, hash}
use rsbanano_node.Core.Saved.{SavedBlock, AccountInfo, PendingKey, PendingInfo, pending_keys}
use rsbanano_node.Ledger.State.{Ledger, Constants}
use rsbanano_node.Ledger.Valid.{IsValid, supply, pending_sum}
use rsbanano_node.Validation.Helpers.{
  BlockValidator, new_account_info, is_receive, delete_received_pending_info, new_pending_info,
}
use rsbanano_node.Validation.Rules.{ensure_block_does_not_exist_yet}
use rsbanano_node.Validation.Accepted.{Accepted, receives_pending}
use rsbanano_node.Validation.Balance.{taken, offered, minted, Accepted-Balances}
use rsbanano_node.Insertion.Factory.{create_validator, load_pending, receive_key}
use rsbanano_node.Insertion.Inserter.{Pending}
use rsbanano_node.Insertion.Process.{process, done}
use rsbanano_node.Insertion.Inverse.{accounts_after, pending_taken, pending_after, process-Written}
use rsbanano_node.Insertion.View.{InRange, view, view-Bounded}

-- The account's record is replaced, also where it is deleted first.
pub total-accounts_after :
    (f : AccountInfo → ℕ) (v : BlockValidator) (t : Table Account AccountInfo)
    → IsUnique t
    → get v.account t ≡ v.old_account_info
    → total f (accounts_after v t) + map_or v.old_account_info 0 f
      ≡ total f t + f (new_account_info v)
total-accounts_after f v t u e = elim (Option-cases v.old_account_info) [
  | inl q ↦ ground (arith, total-put_new f v.account (new_account_info v) t)
  | inr (info, q) ↦ ground (
    arith,
    total-put f v.account (new_account_info v) info t,
    total-put_new f v.account (new_account_info v) (erase v.account t)
        (get-erase_self v.account t u),
    total-erase f v.account info t,
  )
]

pub offered-hash :
    (v : BlockValidator) (key : PendingKey) (info : PendingInfo)
    → new_pending_info v ≡ some (key, info)
    → key.send_block_hash ≡ hash v.block
unfolding new_pending_info
offered-hash v key info e = ground arith

pub fresh_hash :
    (v : BlockValidator) → ensure_block_does_not_exist_yet v ≡ ok tt → v.block_exists ≡ false
unfolding ensure_block_does_not_exist_yet
fresh_hash v h = ground arith

pub pending_taken-none :
    (v : BlockValidator) (key : PendingKey) (t : Pending)
    → get key t ≡ none
    → get key (pending_taken v t) ≡ none
pending_taken-none v key t h = elim (Option-cases (delete_received_pending_info v)) [
  | inl e ↦ ground arith
  | inr (k, e) ↦ ground (arith, get-erase-none k key t h)
]

module _ (c : Constants) (now : ℕ) (l : Ledger) (b : Block) where
  abbrev v : BlockValidator
  v = view c now l b

  total-pending_taken :
      Accepted v → total (λ p. p.amount) (pending_taken v l.pending) + taken v ≡ pending_sum l
  unfolding create_validator load_pending delete_received_pending_info
  total-pending_taken a = elim (Bool-cases (is_receive v)) [
    | inr r ↦ ground arith
    | inl r ↦
        let (p, e, q) = receives_pending v a.pending_correct r in
        ground (arith, total-erase (λ (i : PendingInfo). i.amount) (receive_key l b) p l.pending)
  ]

  -- The entry for the new block does not stand in the table yet.
  pub offered_new :
      IsValid l
      → Accepted v
      → (key : PendingKey) (info : PendingInfo) → new_pending_info v ≡ some (key, info)
      → get key l.pending ≡ none
  unfolding create_validator
  offered_new k a key info e = elim (Option-cases (get key l.pending)) [
    | inl q ↦ q
    | inr (p, q) ↦ ground (arith, k.sources key, offered-hash v key info e, fresh_hash v a.is_new)
  ]

  total-pending_after :
      IsValid l
      → Accepted v
      → total (λ p. p.amount) (pending_after v l.pending) + taken v ≡ pending_sum l + offered v
  total-pending_after k a = elim (Option-cases (new_pending_info v)) [
    | inl e ↦ ground (arith, total-pending_taken a)
    | inr ((key, info), e) ↦ ground (
      arith,
      total-pending_taken a,
      total-put_new (λ (i : PendingInfo). i.amount) key info (pending_taken v l.pending)
          (pending_taken-none v key l.pending (offered_new k a key info e)),
    )
  ]

-- In a valid ledger, an accepted block changes the money supply by exactly what it mints: nothing,
-- unless it is a state block with an epoch link that raises the balance of its account. The
-- block's hash is not zero, and its balance is within 128 bits.
pub supply-process :
    (c : Constants) (now : ℕ) (l l' : Ledger) (b : Block) (s : SavedBlock)
    → IsValid l
    → hash b ≢ 0
    → InRange b
    → process c now l b ≡ done (l', s)
    → supply l' ≡ supply l + minted (view c now l b)
unfolding create_validator new_account_info
supply-process c now l l' b s k ne r h =
    let v = view c now l b in
    let w = process-Written c now l l' b s ne h in
    let t =
      total-accounts_after (λ (i : AccountInfo). i.balance) v l.accounts k.accounts_unique refl in
    ground (
      arith,
      t,
      w.accounts,
      w.pending,
      total-pending_after c now l b k w.accepted,
      Accepted-Balances v w.accepted (view-Bounded c now l b k r w.accepted),
    )
