-- ===== src/Core/Saved.antt =====
-- core/src: a block with its sideband (blocks/mod.rs, blocks/block_sideband.rs), and the records of
-- the account, pending and confirmation height tables.
use rsbanano_node.Prelude.{
  ℕ, ◌≡◌, refl, ◌↔◌, Bool, true, false, ◌&&◌, Option, none, some, arith, ◌==◌, if◌then◌else◌,
}
use rsbanano_node.Prelude.Table.{Eq}
use rsbanano_node.Core.Types.{Account, BlockHash, PublicKey, is_zero}
use rsbanano_node.Core.Amount.{Amount}
use rsbanano_node.Core.Epoch.{Epoch}
use rsbanano_node.Core.Details.{BlockDetails}
use rsbanano_node.Core.Block.{
  Block, legacy_send, legacy_receive, legacy_open, legacy_change, state, account_field,
}

pub record BlockSideband : Type 0 where
  pub height : ℕ
  pub timestamp : ℕ
  pub successor : BlockHash
  pub account : Account
  pub balance : Amount
  pub details : BlockDetails
  pub source_epoch : Epoch

pub record SavedBlock : Type 0 where
  pub block : Block
  pub sideband : BlockSideband

abbrev pub saved_account : SavedBlock → Account
saved_account s = elim (account_field s.block) [ none ↦ s.sideband.account | some a ↦ a ]

abbrev pub height : SavedBlock → ℕ
height s = s.sideband.height

abbrev pub saved_epoch : SavedBlock → Epoch
saved_epoch s = s.sideband.details.epoch

abbrev pub source_epoch : SavedBlock → Epoch
source_epoch s = s.sideband.source_epoch

abbrev pub balance_of : Block → Amount → Amount
balance_of (legacy_send b) sideband_balance = b.balance
balance_of (legacy_receive b) sideband_balance = sideband_balance
balance_of (legacy_open b) sideband_balance = sideband_balance
balance_of (legacy_change b) sideband_balance = sideband_balance
balance_of (state b) sideband_balance = b.balance

-- `SavedBlock::balance`
abbrev pub saved_balance : SavedBlock → Amount
saved_balance s = balance_of s.block s.sideband.balance

abbrev pub successor : SavedBlock → Option BlockHash
successor s = if is_zero s.sideband.successor then none else some s.sideband.successor

pub record AccountInfo : Type 0 where
  pub head : BlockHash
  pub representative : PublicKey
  pub open_block : BlockHash
  pub balance : Amount
  pub modified : ℕ
  pub block_count : ℕ
  pub epoch : Epoch

-- `AccountInfo::default()`; the default epoch is `Unspecified`.
abbrev pub default_info : AccountInfo
default_info = record {
  head = 0;
  representative = 0;
  open_block = 0;
  balance = 0;
  modified = 0;
  block_count = 0;
  epoch = Epoch.unspecified;
}

pub record PendingKey : Type 0 where
  pub receiving_account : Account
  pub send_block_hash : BlockHash

pub record PendingInfo : Type 0 where
  pub source : Account
  pub amount : Amount
  pub epoch : Epoch

pub record ConfirmationHeightInfo : Type 0 where
  pub height : ℕ
  pub frontier : BlockHash

abbrev pub pending_key_eq : PendingKey → PendingKey → Bool
pending_key_eq a b =
    a.receiving_account == b.receiving_account && a.send_block_hash == b.send_block_hash

pub pending_key_eq_iff : (a b : PendingKey) → (pending_key_eq a b ≡ true) ↔ (a ≡ b)
pending_key_eq_iff a b = (λ h. ground arith, λ h. ground arith)

instance abbrev pub pending_keys : Eq PendingKey
pending_keys = record { beq = pending_key_eq; beq_iff = pending_key_eq_iff }

abbrev legacy_details : Bool → Bool → BlockDetails
legacy_details is_send is_receive = record {
  epoch = Epoch.epoch0;
  is_send = is_send;
  is_receive = is_receive;
  is_epoch = false;
}

-- What the block table gives back for a sideband that was written to it: `BlockSideband::serialize`
-- leaves out what `SavedBlock::deserialize` can fill in from the block.
unfoldable pub reload_sideband : Block → BlockSideband → BlockSideband
reload_sideband (legacy_send b) s = record s {
  balance = b.balance;
  details = legacy_details true false;
  source_epoch = Epoch.epoch0;
}
reload_sideband (legacy_receive b) s = record s {
  details = legacy_details false true;
  source_epoch = Epoch.epoch0;
}
reload_sideband (legacy_open b) s = record s {
  height = 1;
  account = b.account;
  details = legacy_details false true;
  source_epoch = Epoch.epoch0;
}
reload_sideband (legacy_change b) s = record s {
  details = legacy_details false false;
  source_epoch = Epoch.epoch0;
}
reload_sideband (state b) s = record s { account = b.account; balance = b.balance }

unfoldable pub reload : SavedBlock → SavedBlock
unfolding reload_sideband
reload s = record s { sideband = reload_sideband s.block s.sideband }

-- Reading and writing a block again changes nothing more.
pub reload-reload : (s : SavedBlock) → reload (reload s) ≡ reload s
unfolding reload
reload-reload s = ground arith

pub block-reload : (s : SavedBlock) → (reload s).block ≡ s.block
unfolding reload
block-reload s = refl
