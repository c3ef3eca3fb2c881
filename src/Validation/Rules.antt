-- ===== src/Validation/Rules.antt =====
-- ledger/src/block_insertion/validation: common_rules.rs, open_block_rules.rs, send_block_rules.rs,
-- receive_block_rules.rs and epoch_block_rules.rs.
use rsbanano_node.Prelude.{
  Bool, true, false, ◌&&◌, not, ltb, ◌==◌, if◌then◌else◌, is_none, map_or, unwrap_or,
}
use rsbanano_node.Prelude.Check.{Result, ok, err, ◌>>◌, fail_if}
use rsbanano_node.Core.Types.{is_zero}
use rsbanano_node.Core.Epoch.{Epoch, epoch_signer, epoch_eq, is_sequential}
use rsbanano_node.Core.Work.{is_valid_pow}
use rsbanano_node.Core.Block.{
  Block, StateBlock, legacy_send, legacy_receive, legacy_open, state, hash, signature, previous,
  block_type, link_field, is_open, valid_predecessor,
}
use rsbanano_node.Ledger.State.{BlockStatus}
use rsbanano_node.Validation.Helpers.{
  BlockValidator, account_exists, is_new_account, previous_balance, has_epoch_link, is_receive,
  amount_received, is_epoch_block, block_epoch_version, block_details, balance_changed,
}

abbrev pub Check : Type 0
Check = Result BlockStatus (Unit {0})

unfoldable pub ensure_block_does_not_exist_yet : BlockValidator → Check
ensure_block_does_not_exist_yet v = fail_if v.block_exists BlockStatus.old

-- `Epochs::validate_epoch_signature`, as a test.
unfoldable pub epoch_signature_valid : BlockValidator → Bool
epoch_signature_valid v =
    map_or (epoch_signer v.epochs (unwrap_or (link_field v.block) 0)) false
      (λ signer. v.verify signer (hash v.block) (signature v.block))

abbrev pub owner_signature_valid : BlockValidator → Bool
owner_signature_valid v = v.verify v.account (hash v.block) (signature v.block)

unfoldable pub ensure_valid_signature : BlockValidator → Check
ensure_valid_signature v =
    fail_if (not (if is_epoch_block v then epoch_signature_valid v else owner_signature_valid v))
      BlockStatus.bad_signature

unfoldable pub ensure_account_exists_for_none_open_block : BlockValidator → Check
ensure_account_exists_for_none_open_block v =
    fail_if (not (is_open v.block) && is_new_account v) BlockStatus.gap_previous

unfoldable pub ensure_previous_block_exists : BlockValidator → Check
ensure_previous_block_exists v = do
  fail_if (account_exists v && is_none v.previous_block) BlockStatus.gap_previous
  fail_if (is_new_account v && not (is_zero (previous v.block))) BlockStatus.gap_previous

unfoldable pub ensure_previous_block_is_account_head : BlockValidator → Check
ensure_previous_block_is_account_head v =
    fail_if (map_or v.old_account_info false (λ info. not (previous v.block == info.head)))
      BlockStatus.fork

unfoldable pub ensure_previous_block_is_correct : BlockValidator → Check
unfolding ensure_previous_block_exists ensure_previous_block_is_account_head
ensure_previous_block_is_correct v = do
  ensure_previous_block_exists v
  ensure_previous_block_is_account_head v

unfoldable pub ensure_sufficient_work : BlockValidator → Check
ensure_sufficient_work v =
    fail_if (not (is_valid_pow v.thresholds v.block (block_details v)))
      BlockStatus.insufficient_work

unfoldable pub ensure_valid_predecessor : BlockValidator → Check
ensure_valid_predecessor v =
    if is_zero (previous v.block)
    then ok tt
    else map_or v.previous_block (err BlockStatus.gap_previous) (λ p.
      fail_if (not (valid_predecessor v.block (block_type p.block))) BlockStatus.block_position)

unfoldable pub ensure_block_is_not_for_burn_account : BlockValidator → Check
ensure_block_is_not_for_burn_account v = fail_if (is_zero v.account) BlockStatus.opened_burn_account

unfoldable pub ensure_no_double_account_open : BlockValidator → Check
ensure_no_double_account_open v = fail_if (account_exists v && is_open v.block) BlockStatus.fork

-- `if let Block::State(state) = self.block { … }`
abbrev pub if_state : Block → (StateBlock → Bool) → Bool
if_state b test = elim b [ state s ↦ test s | _ ↦ false ]

unfoldable pub ensure_open_block_has_link : BlockValidator → Check
ensure_open_block_has_link v =
    fail_if (if_state v.block (λ s. is_open v.block && is_zero s.link)) BlockStatus.gap_source

unfoldable pub ensure_no_receive_balance_change_without_link : BlockValidator → Check
ensure_no_receive_balance_change_without_link v =
    fail_if (if_state v.block (λ s. is_zero s.link && not (is_zero (amount_received v))))
      BlockStatus.balance_mismatch

unfoldable pub ensure_no_negative_amount_send : BlockValidator → Check
ensure_no_negative_amount_send v = elim v.block [
  | legacy_send b ↦ fail_if (ltb (previous_balance v) b.balance) BlockStatus.negative_spend
  | _ ↦ ok tt
]

unfoldable pub ensure_source_block_exists : BlockValidator → Check
ensure_source_block_exists v =
    fail_if (is_receive v && not v.source_block_exists) BlockStatus.gap_source

unfoldable pub ensure_receive_block_receives_pending_amount : BlockValidator → Check
ensure_receive_block_receives_pending_amount v =
    if is_receive v
    then map_or v.pending_receive_info (err BlockStatus.unreceivable)
        (λ p. fail_if (not (amount_received v == p.amount)) BlockStatus.balance_mismatch)
    else ok tt

abbrev is_legacy_receive : Block → Bool
is_legacy_receive (legacy_receive b) = true
is_legacy_receive (legacy_open b) = true
is_legacy_receive _ = false

-- `unwrap_or_default()` gives `Epoch::Unspecified` where nothing is pending.
unfoldable pub ensure_legacy_source_is_epoch_0 : BlockValidator → Check
ensure_legacy_source_is_epoch_0 v =
    fail_if
      (is_legacy_receive v.block
        && not (
            epoch_eq (map_or v.pending_receive_info Epoch.unspecified (λ p. p.epoch)) Epoch.epoch0))
      BlockStatus.unreceivable

unfoldable pub ensure_pending_receive_is_correct : BlockValidator → Check
unfolding ensure_source_block_exists ensure_receive_block_receives_pending_amount
    ensure_legacy_source_is_epoch_0
ensure_pending_receive_is_correct v = do
  ensure_source_block_exists v
  ensure_receive_block_receives_pending_amount v
  ensure_legacy_source_is_epoch_0 v

unfoldable pub ensure_epoch_block_does_not_change_representative : BlockValidator → Check
ensure_epoch_block_does_not_change_representative v =
    fail_if
      (if_state v.block (λ s.
        is_epoch_block v
        && map_or v.old_account_info false (λ info. not (s.representative == info.representative))))
      BlockStatus.representative_mismatch

unfoldable pub ensure_epoch_open_has_burn_account_as_rep : BlockValidator → Check
ensure_epoch_open_has_burn_account_as_rep v =
    fail_if
      (if_state v.block
        (λ s. is_epoch_block v && is_open v.block && not (is_zero s.representative)))
      BlockStatus.representative_mismatch

unfoldable pub ensure_epoch_open_has_pending_entry : BlockValidator → Check
ensure_epoch_open_has_pending_entry v =
    fail_if (is_open v.block && is_epoch_block v && not v.any_pending_exists)
      BlockStatus.gap_epoch_open_pending

unfoldable pub ensure_valid_epoch_for_unopened_account : BlockValidator → Check
ensure_valid_epoch_for_unopened_account v =
    fail_if (is_open v.block && is_epoch_block v && epoch_eq (block_epoch_version v) Epoch.invalid)
      BlockStatus.block_position

unfoldable pub ensure_epoch_upgrade_is_sequential_for_existing_account : BlockValidator → Check
ensure_epoch_upgrade_is_sequential_for_existing_account v =
    fail_if
      (is_epoch_block v
        && map_or v.old_account_info false
            (λ info. not (is_sequential info.epoch (block_epoch_version v))))
      BlockStatus.block_position

unfoldable pub ensure_epoch_block_does_not_change_balance : BlockValidator → Check
ensure_epoch_block_does_not_change_balance v =
    fail_if (is_epoch_block v && balance_changed v) BlockStatus.balance_mismatch

unfoldable pub ensure_valid_epoch_block : BlockValidator → Check
unfolding ensure_epoch_block_does_not_change_representative
    ensure_epoch_open_has_burn_account_as_rep ensure_epoch_open_has_pending_entry
    ensure_valid_epoch_for_unopened_account ensure_epoch_upgrade_is_sequential_for_existing_account
    ensure_epoch_block_does_not_change_balance
ensure_valid_epoch_block v = do
  ensure_epoch_block_does_not_change_representative v
  ensure_epoch_open_has_burn_account_as_rep v
  ensure_epoch_open_has_pending_entry v
  ensure_valid_epoch_for_unopened_account v
  ensure_epoch_upgrade_is_sequential_for_existing_account v
  ensure_epoch_block_does_not_change_balance v

-- `StateBlock::verify_signature`
abbrev state_signature_valid : BlockValidator → StateBlock → Bool
state_signature_valid v s = v.verify s.account s.hash s.signature

unfoldable pub ensure_epoch_block_candidate_is_signed_by_owner_or_epoch_account :
    BlockValidator → Check
ensure_epoch_block_candidate_is_signed_by_owner_or_epoch_account v =
    fail_if
      (if_state v.block (λ s.
        has_epoch_link v s && (not (state_signature_valid v s) && not (epoch_signature_valid v))))
      BlockStatus.bad_signature

unfoldable pub ensure_previous_block_exists_for_epoch_block_candidate : BlockValidator → Check
ensure_previous_block_exists_for_epoch_block_candidate v =
    fail_if
      (if_state v.block
        (λ s. has_epoch_link v s && not (is_zero (previous v.block)) && is_none v.previous_block))
      BlockStatus.gap_previous

unfoldable pub epoch_block_pre_checks : BlockValidator → Check
unfolding ensure_epoch_block_candidate_is_signed_by_owner_or_epoch_account
    ensure_previous_block_exists_for_epoch_block_candidate
epoch_block_pre_checks v = do
  ensure_epoch_block_candidate_is_signed_by_owner_or_epoch_account v
  ensure_previous_block_exists_for_epoch_block_candidate v
