-- ===== src/Validation/Accepted.antt =====
-- What an accepted block has passed: the checks of `BlockValidator::validate`, taken apart.
use rsbanano_node.Prelude.{◌≤◌, ◌≡◌, true, false, none, some, arith, is_none}
use rsbanano_node.Prelude.Check.{ok}
use rsbanano_node.Core.Block.{SendBlock, StateBlock, legacy_send, state, previous}
use rsbanano_node.Core.Saved.{AccountInfo, PendingInfo}
use rsbanano_node.Validation.Helpers.{BlockValidator, previous_balance, is_receive, amount_received}
use rsbanano_node.Validation.Rules.{
  epoch_block_pre_checks, ensure_block_does_not_exist_yet, ensure_valid_predecessor,
  ensure_valid_signature, ensure_block_is_not_for_burn_account,
  ensure_account_exists_for_none_open_block, ensure_no_double_account_open,
  ensure_previous_block_is_correct, ensure_open_block_has_link,
  ensure_no_receive_balance_change_without_link, ensure_pending_receive_is_correct,
  ensure_sufficient_work, ensure_no_negative_amount_send, ensure_valid_epoch_block,
}
use rsbanano_node.Validation.Validate.{BlockInsertInstructions, validate, create_instructions}

pub record Accepted (v : BlockValidator) : Type 0 where
  pub pre_checks : epoch_block_pre_checks v ≡ ok tt
  pub is_new : ensure_block_does_not_exist_yet v ≡ ok tt
  pub predecessor : ensure_valid_predecessor v ≡ ok tt
  pub signed : ensure_valid_signature v ≡ ok tt
  pub not_burn : ensure_block_is_not_for_burn_account v ≡ ok tt
  pub account_known : ensure_account_exists_for_none_open_block v ≡ ok tt
  pub single_open : ensure_no_double_account_open v ≡ ok tt
  pub previous_correct : ensure_previous_block_is_correct v ≡ ok tt
  pub open_has_link : ensure_open_block_has_link v ≡ ok tt
  pub no_change_without_link : ensure_no_receive_balance_change_without_link v ≡ ok tt
  pub pending_correct : ensure_pending_receive_is_correct v ≡ ok tt
  pub has_work : ensure_sufficient_work v ≡ ok tt
  pub no_negative : ensure_no_negative_amount_send v ≡ ok tt
  pub valid_epoch : ensure_valid_epoch_block v ≡ ok tt

pub validate-Accepted :
    (v : BlockValidator) (i : BlockInsertInstructions)
    → validate v ≡ ok i
    → Accepted v × (i ≡ create_instructions v)
unfolding validate
validate-Accepted v i h = ground arith

-- A block for an account that exists follows its head; one for a new account follows nothing.
pub previous-head :
    (v : BlockValidator) (info : AccountInfo)
    → ensure_previous_block_is_correct v ≡ ok tt
    → v.old_account_info ≡ some info
    → (previous v.block ≡ info.head) × (is_none v.previous_block ≡ false)
unfolding ensure_previous_block_is_correct
previous-head v info h e = ground arith

pub previous-new :
    (v : BlockValidator)
    → ensure_previous_block_is_correct v ≡ ok tt
    → v.old_account_info ≡ none
    → previous v.block ≡ 0
unfolding ensure_previous_block_is_correct
previous-new v h e = ground arith

-- A receive takes the whole amount of an entry that is pending.
pub receives_pending :
    (v : BlockValidator)
    → ensure_pending_receive_is_correct v ≡ ok tt
    → is_receive v ≡ true
    → (p : PendingInfo) × (v.pending_receive_info ≡ some p) × (amount_received v ≡ p.amount)
unfolding ensure_pending_receive_is_correct
receives_pending v h r = ground arith

-- A legacy send leaves no more than there was.
pub send-le :
    (v : BlockValidator) (b : SendBlock)
    → v.block ≡ legacy_send b
    → ensure_no_negative_amount_send v ≡ ok tt
    → b.balance ≤ previous_balance v
unfolding ensure_no_negative_amount_send
send-le v b e h = ground arith

-- A state block with no link receives nothing.
pub no_link_no_receive :
    (v : BlockValidator) (b : StateBlock)
    → v.block ≡ state b
    → ensure_no_receive_balance_change_without_link v ≡ ok tt
    → b.link ≡ 0
    → amount_received v ≡ 0
unfolding ensure_no_receive_balance_change_without_link
no_link_no_receive v b e h z = ground arith
