-- ===== src/Validation/Helpers.antt =====
-- ledger/src/block_insertion/validation/helpers.rs: what the validator reads off the block and the
-- loaded state.
use rsbanano_node.Prelude.{
  ℕ, Bool, true, false, ◌&&◌, not, Option, none, some, ltb, leb, ◌==◌, if◌then◌else◌, is_some,
  is_none, unwrap_or, map_or,
}
use rsbanano_node.Prelude.Word.{add_u64}
use rsbanano_node.Core.Types.{Account, BlockHash, PublicKey, Verify, is_zero}
use rsbanano_node.Core.Amount.{Amount, add, sub}
use rsbanano_node.Core.Epoch.{Epoch, Epochs, is_epoch_link, epoch_of, max_epoch}
use rsbanano_node.Core.Details.{BlockDetails}
use rsbanano_node.Core.Work.{WorkThresholds}
use rsbanano_node.Core.Block.{
  Block, StateBlock, legacy_send, legacy_receive, legacy_open, state, hash, link_field,
  representative_field, source_or_link,
}
use rsbanano_node.Core.Saved.{
  SavedBlock, BlockSideband, AccountInfo, PendingKey, PendingInfo, saved_balance,
}

-- `verify` is the signature scheme that `PublicKey::verify` calls.
pub record BlockValidator : Type 0 where
  pub block : Block
  pub epochs : Epochs
  pub thresholds : WorkThresholds
  pub block_exists : Bool
  pub account : Account
  pub previous_block : Option SavedBlock
  pub old_account_info : Option AccountInfo
  pub pending_receive_info : Option PendingInfo
  pub any_pending_exists : Bool
  pub source_block_exists : Bool
  pub seconds_since_epoch : ℕ
  pub verify : Verify

abbrev pub account_exists : BlockValidator → Bool
account_exists v = is_some v.old_account_info

abbrev pub is_new_account : BlockValidator → Bool
is_new_account v = is_none v.old_account_info

abbrev pub previous_balance : BlockValidator → Amount
previous_balance v = map_or v.previous_block 0 saved_balance

unfoldable pub is_send : BlockValidator → Bool
is_send v = elim v.block [
  | legacy_send b ↦ true
  | state b ↦ map_or v.old_account_info false (λ info. ltb b.balance info.balance)
  | _ ↦ false
]

abbrev pub has_epoch_link : BlockValidator → StateBlock → Bool
has_epoch_link v b = is_epoch_link v.epochs b.link

unfoldable pub is_receive : BlockValidator → Bool
is_receive v = elim v.block [
  | legacy_receive b ↦ true
  | legacy_open b ↦ true
  | state b ↦
      if has_epoch_link v b
      then false
      else map_or v.old_account_info true
          (λ info. leb info.balance b.balance && not (is_zero b.link))
  | _ ↦ false
]

abbrev pub source_epoch : BlockValidator → Epoch
source_epoch v = map_or v.pending_receive_info Epoch.epoch0 (λ p. p.epoch)

abbrev pub pending_amount : BlockValidator → Amount
pending_amount v = map_or v.pending_receive_info 0 (λ p. p.amount)

unfoldable pub amount_received : BlockValidator → Amount
amount_received v = elim v.block [
  | legacy_receive b ↦ pending_amount v
  | legacy_open b ↦ pending_amount v
  | state b ↦ if ltb (previous_balance v) b.balance then sub b.balance (previous_balance v) else 0
  | _ ↦ 0
]

abbrev sent_down_to : AccountInfo → Amount → Amount
sent_down_to info balance = if ltb balance info.balance then sub info.balance balance else 0

unfoldable pub amount_sent : BlockValidator → Amount
amount_sent v = map_or v.old_account_info 0 (λ info. elim v.block [
  | legacy_send b ↦ sent_down_to info b.balance
  | state b ↦ sent_down_to info b.balance
  | _ ↦ 0
])

abbrev pub old_balance : BlockValidator → Amount
old_balance v = map_or v.old_account_info 0 (λ info. info.balance)

unfoldable pub new_balance : BlockValidator → Amount
new_balance v = sub (add (old_balance v) (amount_received v)) (amount_sent v)

unfoldable pub is_epoch_block : BlockValidator → Bool
is_epoch_block v = elim v.block [
  | state b ↦ has_epoch_link v b && previous_balance v == b.balance
  | _ ↦ false
]

unfoldable pub block_epoch_version : BlockValidator → Epoch
block_epoch_version v = elim v.block [
  | state b ↦ unwrap_or (epoch_of v.epochs b.link) Epoch.invalid
  | _ ↦ Epoch.epoch0
]

abbrev pub old_epoch_version : BlockValidator → Epoch
old_epoch_version v = map_or v.old_account_info Epoch.epoch0 (λ info. info.epoch)

unfoldable pub epoch : BlockValidator → Epoch
epoch v =
    if is_epoch_block v
    then block_epoch_version v
    else max_epoch (old_epoch_version v) (source_epoch v)

abbrev pub open_block : BlockValidator → BlockHash
open_block v = map_or v.old_account_info (hash v.block) (λ info. info.open_block)

abbrev pub old_representative : BlockValidator → PublicKey
old_representative v = map_or v.old_account_info 0 (λ info. info.representative)

abbrev pub new_representative : BlockValidator → PublicKey
new_representative v = unwrap_or (representative_field v.block) (old_representative v)

unfoldable pub amount : BlockValidator → Amount
amount v =
    if ltb (new_balance v) (old_balance v)
    then sub (old_balance v) (new_balance v)
    else sub (new_balance v) (old_balance v)

unfoldable pub delete_received_pending_info : BlockValidator → Option PendingKey
delete_received_pending_info v =
    if is_receive v
    then some (record { receiving_account = v.account; send_block_hash = source_or_link v.block })
    else none

-- `PendingKey::for_send_block`
abbrev pub for_send_block : Block → PendingKey
for_send_block b = record {
  receiving_account = unwrap_or (link_field b) 0;
  send_block_hash = hash b;
}

unfoldable pub new_pending_info : BlockValidator → Option (PendingKey × PendingInfo)
new_pending_info v = elim v.block [
  | state b ↦
      if is_send v
      then some (
        for_send_block v.block,
        record { source = v.account; amount = amount v; epoch = epoch v },
      )
      else none
  | legacy_send b ↦ some (
    record { receiving_account = b.destination; send_block_hash = b.hash },
    record { source = v.account; amount = amount_sent v; epoch = Epoch.epoch0 },
  )
  | _ ↦ none
]

unfoldable pub new_block_count : BlockValidator → ℕ
new_block_count v = add_u64 (map_or v.old_account_info 0 (λ info. info.block_count)) 1

unfoldable pub block_details : BlockValidator → BlockDetails
block_details v = record {
  epoch = epoch v;
  is_send = is_send v;
  is_receive = is_receive v;
  is_epoch = is_epoch_block v;
}

unfoldable pub new_sideband : BlockValidator → BlockSideband
new_sideband v = record {
  height = new_block_count v;
  timestamp = v.seconds_since_epoch;
  successor = 0;
  account = v.account;
  balance = new_balance v;
  details = block_details v;
  source_epoch = source_epoch v;
}

unfoldable pub new_account_info : BlockValidator → AccountInfo
new_account_info v = record {
  head = hash v.block;
  representative = new_representative v;
  open_block = open_block v;
  balance = new_balance v;
  modified = v.seconds_since_epoch;
  block_count = new_block_count v;
  epoch = epoch v;
}

unfoldable pub balance_changed : BlockValidator → Bool
balance_changed v = map_or v.old_account_info false (λ info. not (new_balance v == info.balance))
