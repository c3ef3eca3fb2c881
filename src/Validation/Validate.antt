-- ===== src/Validation/Validate.antt =====
-- ledger/src/block_insertion/validation/mod.rs: the order of the checks, and the instructions.
use rsbanano_node.Prelude.{Bool, Option, unwrap_or}
use rsbanano_node.Prelude.Check.{Result, ok, ◌>>◌}
use rsbanano_node.Core.Types.{Account}
use rsbanano_node.Core.Saved.{AccountInfo, BlockSideband, PendingKey, PendingInfo, default_info}
use rsbanano_node.Ledger.State.{BlockStatus}
use rsbanano_node.Validation.Helpers.{
  BlockValidator, new_account_info, delete_received_pending_info, new_pending_info, new_sideband,
  is_epoch_block,
}
use rsbanano_node.Validation.Rules.{
  epoch_block_pre_checks, ensure_block_does_not_exist_yet, ensure_valid_predecessor,
  ensure_valid_signature, ensure_block_is_not_for_burn_account,
  ensure_account_exists_for_none_open_block, ensure_no_double_account_open,
  ensure_previous_block_is_correct, ensure_open_block_has_link,
  ensure_no_receive_balance_change_without_link, ensure_pending_receive_is_correct,
  ensure_sufficient_work, ensure_no_negative_amount_send, ensure_valid_epoch_block,
}

pub record BlockInsertInstructions : Type 0 where
  pub account : Account
  pub old_account_info : AccountInfo
  pub set_account_info : AccountInfo
  pub delete_pending : Option PendingKey
  pub insert_pending : Option (PendingKey × PendingInfo)
  pub set_sideband : BlockSideband
  pub is_epoch : Bool

unfoldable pub create_instructions : BlockValidator → BlockInsertInstructions
create_instructions v = record {
  account = v.account;
  old_account_info = unwrap_or v.old_account_info default_info;
  set_account_info = new_account_info v;
  delete_pending = delete_received_pending_info v;
  insert_pending = new_pending_info v;
  set_sideband = new_sideband v;
  is_epoch = is_epoch_block v;
}

unfoldable pub validate : BlockValidator → Result BlockStatus BlockInsertInstructions
validate v = do
  epoch_block_pre_checks v
  ensure_block_does_not_exist_yet v
  ensure_valid_predecessor v
  ensure_valid_signature v
  ensure_block_is_not_for_burn_account v
  ensure_account_exists_for_none_open_block v
  ensure_no_double_account_open v
  ensure_previous_block_is_correct v
  ensure_open_block_has_link v
  ensure_no_receive_balance_change_without_link v
  ensure_pending_receive_is_correct v
  ensure_sufficient_work v
  ensure_no_negative_amount_send v
  ensure_valid_epoch_block v
  ok (create_instructions v)
