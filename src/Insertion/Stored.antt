-- ===== src/Insertion/Stored.antt =====
-- An inserted block, and what the block table gives back for it.
use rsbanano_node.Prelude.{◌≡◌, ◌≢◌, none, arith, map_or, refl}
use rsbanano_node.Core.Amount.{add, sub}
use rsbanano_node.Core.Epoch.{Epoch}
use rsbanano_node.Core.Block.{
  Block, SendBlock, ReceiveBlock, OpenBlock, ChangeBlock, StateBlock, legacy_send, legacy_receive,
  legacy_open, legacy_change, state, account_field, block_type, source_or_link,
}
use rsbanano_node.Core.BlockType.{BlockType}
use rsbanano_node.Core.Saved.{reload, saved_balance}
use rsbanano_node.Validation.Helpers.{
  BlockValidator, new_balance, old_epoch_version, amount_sent, amount_received, is_send, is_receive,
  is_epoch_block, block_details, epoch, new_sideband, new_block_count,
}
use rsbanano_node.Validation.Rules.{
  ensure_account_exists_for_none_open_block, ensure_pending_receive_is_correct,
  ensure_no_double_account_open,
}
use rsbanano_node.Validation.Validate.{create_instructions}
use rsbanano_node.Validation.Accepted.{Accepted, send-le}
use rsbanano_node.Validation.Balance.{Bounded}
use rsbanano_node.Insertion.Inserter.{saved_block}

-- What the loaded state adds: legacy blocks stand on legacy blocks, which are of epoch 0.
pub record Loaded (v : BlockValidator) : Type 0 where
  pub bounded : Bounded v
  pub account : map_or (account_field v.block) v.account (λ a. a) ≡ v.account
  pub no_source : source_or_link v.block ≡ 0 → v.pending_receive_info ≡ none
  pub legacy : block_type v.block ≢ BlockType.state → old_epoch_version v ≡ Epoch.epoch0

module _ (v : BlockValidator) (a : Accepted v) (k : Loaded v) where
  abbrev Stored : Type 0
  Stored =
      (reload (saved_block v.block (create_instructions v))
        ≡ saved_block v.block (create_instructions v))
      × (saved_balance (saved_block v.block (create_instructions v)) ≡ new_balance v)

  send-Stored : (b : SendBlock) → v.block ≡ legacy_send b → Stored
  unfolding reload create_instructions new_sideband new_balance amount_sent amount_received is_send
      is_receive is_epoch_block block_details epoch add sub
      ensure_account_exists_for_none_open_block
  send-Stored b e = ground (
    arith,
    send-le v b e a.no_negative,
    a.account_known,
    k.bounded.linked,
    k.bounded.receivable,
    k.no_source,
    k.legacy,
  )

  receive-Stored : (b : ReceiveBlock) → v.block ≡ legacy_receive b → Stored
  unfolding reload create_instructions new_sideband amount_sent amount_received is_send is_receive
      is_epoch_block block_details epoch ensure_pending_receive_is_correct
  receive-Stored b e = ground (arith, a.pending_correct, k.legacy)

  open-Stored : (b : OpenBlock) → v.block ≡ legacy_open b → Stored
  unfolding reload create_instructions new_sideband new_block_count amount_sent amount_received
      is_send is_receive is_epoch_block block_details epoch ensure_pending_receive_is_correct
      ensure_no_double_account_open
  open-Stored b e = ground (arith, a.pending_correct, a.single_open, k.legacy, k.account)

  change-Stored : (b : ChangeBlock) → v.block ≡ legacy_change b → Stored
  unfolding reload create_instructions new_sideband amount_sent amount_received is_send is_receive
      is_epoch_block block_details epoch
  change-Stored b e = ground (arith, k.legacy, k.no_source)

  state-Stored : (b : StateBlock) → v.block ≡ state b → Stored
  unfolding reload create_instructions new_sideband new_balance amount_sent amount_received add sub
  state-Stored b e =
      ground (arith, k.account, k.bounded.linked, k.bounded.receivable, k.bounded.in_range)

  stored_of : (b : Block) → v.block ≡ b → Stored
  stored_of (legacy_send b) e = send-Stored b e
  stored_of (legacy_receive b) e = receive-Stored b e
  stored_of (legacy_open b) e = open-Stored b e
  stored_of (legacy_change b) e = change-Stored b e
  stored_of (state b) e = state-Stored b e

  pub accepted-Stored : Stored
  accepted-Stored = stored_of v.block refl
