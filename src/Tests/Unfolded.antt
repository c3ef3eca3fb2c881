-- ===== src/Tests/Unfolded.antt =====
-- Unfolding this name computes `process`.
use rsbanano_node.Core.Amount.{add, sub, wrapping_add, wrapping_sub}
use rsbanano_node.Core.BlockType.{
  valid_send_block_predecessor, valid_receive_block_predecessor, valid_change_block_predecessor,
}
use rsbanano_node.Core.Epoch.{is_epoch_link, epoch_of, epoch_signer, is_sequential}
use rsbanano_node.Core.Saved.{reload_sideband, reload}
use rsbanano_node.Core.Work.{threshold, difficulty_block, is_valid_pow}
use rsbanano_node.Insertion.Factory.{
  load_previous_block, get_account, account_of, load_pending, create_validator,
}
use rsbanano_node.Insertion.Inserter.{
  delete_old_pending_info, insert_new_pending_info, update_representative_cache, insert,
}
use rsbanano_node.Insertion.Process.{process}
use rsbanano_node.Ledger.Blocks.{set_successor, update_predecessor, put_block}
use rsbanano_node.Ledger.State.{block_exists_or_pruned, receivable_exists, update_account}
use rsbanano_node.Ledger.Weights.{put_cache, put_store, representation_add, representation_add_dual}
use rsbanano_node.Prelude.Table.{get, put, erase, del}
use rsbanano_node.Validation.Helpers.{
  is_send, is_receive, amount_received, amount_sent, new_balance, is_epoch_block,
  block_epoch_version, epoch, amount, delete_received_pending_info, new_pending_info,
  new_block_count, block_details, new_sideband, new_account_info, balance_changed,
}
use rsbanano_node.Validation.Rules.{
  ensure_block_does_not_exist_yet, epoch_signature_valid, ensure_valid_signature,
  ensure_account_exists_for_none_open_block, ensure_previous_block_exists,
  ensure_previous_block_is_account_head, ensure_previous_block_is_correct, ensure_sufficient_work,
  ensure_valid_predecessor, ensure_block_is_not_for_burn_account, ensure_no_double_account_open,
  ensure_open_block_has_link, ensure_no_receive_balance_change_without_link,
  ensure_no_negative_amount_send, ensure_source_block_exists,
  ensure_receive_block_receives_pending_amount, ensure_legacy_source_is_epoch_0,
  ensure_pending_receive_is_correct, ensure_epoch_block_does_not_change_representative,
  ensure_epoch_open_has_burn_account_as_rep, ensure_epoch_open_has_pending_entry,
  ensure_valid_epoch_for_unopened_account, ensure_epoch_upgrade_is_sequential_for_existing_account,
  ensure_epoch_block_does_not_change_balance, ensure_valid_epoch_block,
  ensure_epoch_block_candidate_is_signed_by_owner_or_epoch_account,
  ensure_previous_block_exists_for_epoch_block_candidate, epoch_block_pre_checks,
}
use rsbanano_node.Validation.Validate.{create_instructions, validate}

unfoldable pub all_unfolded : Unit {0}
unfolding add sub wrapping_add wrapping_sub valid_send_block_predecessor
    valid_receive_block_predecessor valid_change_block_predecessor is_epoch_link epoch_of
    epoch_signer is_sequential reload_sideband reload threshold difficulty_block is_valid_pow
    load_previous_block get_account account_of load_pending create_validator delete_old_pending_info
    insert_new_pending_info update_representative_cache insert process set_successor
    update_predecessor put_block block_exists_or_pruned receivable_exists update_account put_cache
    put_store representation_add representation_add_dual get put erase del is_send is_receive
    amount_received amount_sent new_balance is_epoch_block block_epoch_version epoch amount
    delete_received_pending_info new_pending_info new_block_count block_details new_sideband
    new_account_info balance_changed ensure_block_does_not_exist_yet epoch_signature_valid
    ensure_valid_signature ensure_account_exists_for_none_open_block ensure_previous_block_exists
    ensure_previous_block_is_account_head ensure_previous_block_is_correct ensure_sufficient_work
    ensure_valid_predecessor ensure_block_is_not_for_burn_account ensure_no_double_account_open
    ensure_open_block_has_link ensure_no_receive_balance_change_without_link
    ensure_no_negative_amount_send ensure_source_block_exists
    ensure_receive_block_receives_pending_amount ensure_legacy_source_is_epoch_0
    ensure_pending_receive_is_correct ensure_epoch_block_does_not_change_representative
    ensure_epoch_open_has_burn_account_as_rep ensure_epoch_open_has_pending_entry
    ensure_valid_epoch_for_unopened_account ensure_epoch_upgrade_is_sequential_for_existing_account
    ensure_epoch_block_does_not_change_balance ensure_valid_epoch_block
    ensure_epoch_block_candidate_is_signed_by_owner_or_epoch_account
    ensure_previous_block_exists_for_epoch_block_candidate epoch_block_pre_checks
    create_instructions validate
all_unfolded = tt
