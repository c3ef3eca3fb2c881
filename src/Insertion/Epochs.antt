-- ===== src/Insertion/Epochs.antt =====
-- What an epoch signer, who does not own an account, can do to it.
use rsbanano_node.Prelude.{
  ℕ, ◌+◌, ◌≡◌, ◌≢◌, true, false, none, some, Option, arith, map_or, unwrap_or,
}
use rsbanano_node.Prelude.Table.{get, nat_eq}
use rsbanano_node.Prelude.Check.{ok}
use rsbanano_node.Core.Types.{Account}
use rsbanano_node.Core.Amount.{add, sub}
use rsbanano_node.Core.Epoch.{epoch_value, epoch_signer, is_sequential}
use rsbanano_node.Core.Block.{Block, hash, signature, link_field, is_open}
use rsbanano_node.Core.Saved.{SavedBlock, AccountInfo, pending_keys}
use rsbanano_node.Ledger.State.{Ledger, Constants}
use rsbanano_node.Ledger.Valid.{IsValid}
use rsbanano_node.Validation.Helpers.{
  BlockValidator, is_receive, is_send, delete_received_pending_info, new_pending_info,
  new_account_info, new_balance, amount_received, amount_sent, is_epoch_block, epoch, old_balance,
  old_representative, new_representative,
}
use rsbanano_node.Validation.Rules.{
  ensure_account_exists_for_none_open_block, ensure_valid_signature, owner_signature_valid,
  epoch_signature_valid, ensure_valid_epoch_block,
}
use rsbanano_node.Validation.Balance.{Bounded}
use rsbanano_node.Insertion.Factory.{create_validator, account_of}
use rsbanano_node.Insertion.Process.{process, done}
use rsbanano_node.Insertion.Inverse.{process-Written}
use rsbanano_node.Insertion.After.{accounts_after_self}
use rsbanano_node.Insertion.View.{InRange, view, view-Bounded}

-- A block without its owner's signature is an epoch block that an epoch signer has signed.
not_owner_signed :
    (v : BlockValidator)
    → ensure_valid_signature v ≡ ok tt
    → owner_signature_valid v ≡ false
    → (is_epoch_block v ≡ true) × (epoch_signature_valid v ≡ true)
unfolding ensure_valid_signature
not_owner_signed v h e = ground arith

epoch_new_balance :
    (v : BlockValidator) → Bounded v → is_epoch_block v ≡ true → new_balance v ≡ old_balance v
unfolding is_epoch_block new_balance amount_received amount_sent add sub
epoch_new_balance v k e = ground (arith, k.linked, k.receivable)

epoch_new_representative :
    (v : BlockValidator)
    → ensure_valid_epoch_block v ≡ ok tt
    → is_epoch_block v ≡ true
    → (v.old_account_info ≡ none → is_open v.block ≡ true)
    → new_representative v ≡ old_representative v
unfolding is_epoch_block ensure_valid_epoch_block
epoch_new_representative v h e o = ground arith

epoch_no_pending :
    (v : BlockValidator)
    → Bounded v
    → is_epoch_block v ≡ true
    → (delete_received_pending_info v ≡ none) × (new_pending_info v ≡ none)
unfolding is_epoch_block delete_received_pending_info new_pending_info is_receive is_send
epoch_no_pending v k e = ground (arith, k.linked)

epoch_upgrade :
    (v : BlockValidator)
    → ensure_valid_epoch_block v ≡ ok tt
    → is_epoch_block v ≡ true
    → epoch_value (epoch v)
      ≡ map_or v.old_account_info (epoch_value (epoch v)) (λ i. epoch_value i.epoch + 1)
unfolding ensure_valid_epoch_block epoch is_sequential
epoch_upgrade v h e = ground arith

abbrev old_info_of : Ledger → Block → Option AccountInfo
old_info_of l b = get (account_of l b) l.accounts

-- The block of an epoch signer keeps what the account holds and whom it has vote for it, and raises
-- the epoch of an account that exists by one. An account that is opened so has no representative.
pub record Upgraded (c : Constants) (l l' : Ledger) (b : Block) : Type 0 where
  pub signer : Account
  pub has_signer : epoch_signer c.epochs (unwrap_or (link_field b) 0) ≡ some signer
  pub signed : c.verify signer (hash b) (signature b) ≡ true
  pub info : AccountInfo
  pub found : get (account_of l b) l'.accounts ≡ some info
  pub balance : info.balance ≡ map_or (old_info_of l b) 0 (λ i. i.balance)
  pub representative : info.representative ≡ map_or (old_info_of l b) 0 (λ i. i.representative)
  pub epoch_up :
      epoch_value info.epoch
      ≡ map_or (old_info_of l b) (epoch_value info.epoch) (λ i. epoch_value i.epoch + 1)
  pub pending : l'.pending ≡ l.pending

epoch_signer_of :
    (v : BlockValidator)
    → epoch_signature_valid v ≡ true
    → (a : Account) × (epoch_signer v.epochs (unwrap_or (link_field v.block) 0) ≡ some a)
      × (v.verify a (hash v.block) (signature v.block) ≡ true)
unfolding epoch_signature_valid
epoch_signer_of v h = ground arith

opens_new :
    (v : BlockValidator)
    → ensure_account_exists_for_none_open_block v ≡ ok tt
    → v.old_account_info ≡ none
    → is_open v.block ≡ true
unfolding ensure_account_exists_for_none_open_block
opens_new v h e = ground arith

-- A block that is accepted into a valid ledger without the signature of its account's owner is
-- signed by the signer of the epoch of its link. It leaves all receivable entries as they were,
-- and the account's balance and representative (the balance of a new account is 0, and so is its
-- representative), and raises the epoch of an account that exists by exactly one. The block's hash
-- is not zero, and its balance is within 128 bits.
pub process-Upgraded :
    (c : Constants) (now : ℕ) (l l' : Ledger) (b : Block) (s : SavedBlock)
    → IsValid l
    → hash b ≢ 0
    → InRange b
    → c.verify (account_of l b) (hash b) (signature b) ≡ false
    → process c now l b ≡ done (l', s)
    → Upgraded c l l' b
unfolding create_validator new_account_info
process-Upgraded c now l l' b s k ne r n h =
    let v = view c now l b in
    let w = process-Written c now l l' b s ne h in
    let a = w.accepted in
    let m = view-Bounded c now l b k r a in
    let (e, g) = not_owner_signed v a.signed n in
    let (x, has, good) = epoch_signer_of v g in
    record {
      signer = x;
      has_signer = has;
      signed = good;
      info = new_account_info v;
      found = ground (arith, accounts_after_self v l.accounts, w.accounts);
      balance = epoch_new_balance v m e;
      representative = epoch_new_representative v a.valid_epoch e (opens_new v a.account_known);
      epoch_up = epoch_upgrade v a.valid_epoch e;
      pending = ground (arith, w.pending, epoch_no_pending v m e);
    }
