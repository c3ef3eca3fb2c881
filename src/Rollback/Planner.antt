-- ===== src/Rollback/Planner.antt =====
-- ledger/src/block_rollback/rollback_planner.rs: how the head block of an account is taken back.
use rsbanano_node.Prelude.{
  ℕ, ◌-◌, Option, none, some, ltb, leb, if◌then◌else◌, is_some, unwrap_or, map_or,
}
use rsbanano_node.Prelude.Check.{Result, ok, err, fail_if, ◌>>◌}
use rsbanano_node.Prelude.Word.{sub_u64}
use rsbanano_node.Core.Types.{Account, BlockHash, PublicKey, is_zero}
use rsbanano_node.Core.Amount.{Amount}
use rsbanano_node.Core.Epoch.{Epoch, Epochs, is_epoch_link}
use rsbanano_node.Core.BlockType.{BlockSubType}
use rsbanano_node.Core.Block.{
  hash, previous, is_open, link_field, source_or_link, destination_or_link,
}
use rsbanano_node.Core.Saved.{
  SavedBlock, AccountInfo, PendingKey, PendingInfo, ConfirmationHeightInfo, default_info, height,
  saved_balance, saved_epoch, source_epoch,
}

-- Why a rollback stops: the errors of the code, a failed `unwrap`, and spent fuel.
pub data Stop : Type 0 where
  already_confirmed no_destination_block account_not_found block_not_found panicked endless : Stop

pub record RollbackInstructions : Type 0 where
  pub block_hash : BlockHash
  pub block_sub_type : BlockSubType
  pub account : Account
  pub remove_pending : Option PendingKey
  pub add_pending : Option (PendingKey × PendingInfo)
  pub set_account_info : AccountInfo
  pub old_account_info : AccountInfo
  pub clear_successor : Option BlockHash
  pub new_balance : Amount
  pub new_representative : Option PublicKey

pub data RollbackStep : Type 0 where
  roll_back_block : RollbackInstructions → RollbackStep
  -- The account's other block has to be rolled back first.
  request_dependency_rollback : BlockHash → RollbackStep

pub record RollbackPlanner : Type 0 where
  pub epochs : Epochs
  pub head_block : SavedBlock
  pub account : Account
  pub current_account_info : AccountInfo
  pub previous_representative : Option PublicKey
  pub previous_block : Option SavedBlock
  pub linked_account : Account
  pub pending_receive : Option PendingInfo
  pub latest_block_for_destination : Option BlockHash
  pub confirmation_height : ConfirmationHeightInfo
  pub seconds_since_epoch : ℕ

abbrev pub planned_balance : RollbackPlanner → Amount
planned_balance p = map_or p.previous_block 0 saved_balance

abbrev planned_epoch : RollbackPlanner → Epoch
planned_epoch p = map_or p.previous_block Epoch.epoch0 saved_epoch

unfoldable pub block_sub_type : RollbackPlanner → BlockSubType
block_sub_type p =
    if ltb p.current_account_info.balance (planned_balance p)
    then BlockSubType.send
    else if ltb (planned_balance p) p.current_account_info.balance
    then (if is_open p.head_block.block then BlockSubType.open_account else BlockSubType.receive)
    else if is_epoch_link p.epochs (unwrap_or (link_field p.head_block.block) 0)
    then BlockSubType.epoch
    else BlockSubType.change

unfoldable pub ensure_block_is_not_confirmed : RollbackPlanner → Result Stop (Unit {0})
ensure_block_is_not_confirmed p =
    fail_if (leb (height p.head_block) p.confirmation_height.height) Stop.already_confirmed

-- The step that has to be made before a received send block can be rolled back.
unfoldable pub destination_step : RollbackPlanner → Result Stop (Option RollbackStep)
destination_step p =
    if is_some p.pending_receive then ok none else elim p.latest_block_for_destination [
      | none ↦ err Stop.no_destination_block
      | some h ↦ ok (some (RollbackStep.request_dependency_rollback h))
    ]

abbrev pub receive_pending : RollbackPlanner → Option (PendingKey × PendingInfo)
receive_pending p = some (
  record { receiving_account = p.account; send_block_hash = source_or_link p.head_block.block },
  record {
    source = p.linked_account;
    amount = p.current_account_info.balance - planned_balance p;
    epoch = source_epoch p.head_block;
  },
)

-- The balance is above the previous one where this subtracts.
unfoldable pub add_pending : RollbackPlanner → Option (PendingKey × PendingInfo)
add_pending p = elim (block_sub_type p) [
  | BlockSubType.open_account ↦ receive_pending p
  | BlockSubType.receive ↦ receive_pending p
  | _ ↦ none
]

unfoldable pub remove_pending : RollbackPlanner → Option PendingKey
remove_pending p = elim (block_sub_type p) [
  | BlockSubType.send ↦ some (record {
    receiving_account = destination_or_link p.head_block.block;
    send_block_hash = hash p.head_block.block;
  })
  | _ ↦ none
]

unfoldable pub previous_account_info : RollbackPlanner → AccountInfo
previous_account_info p = if is_zero (previous p.head_block.block) then default_info else record {
  head = previous p.head_block.block;
  representative = unwrap_or p.previous_representative p.current_account_info.representative;
  open_block = p.current_account_info.open_block;
  balance = planned_balance p;
  modified = p.seconds_since_epoch;
  block_count = sub_u64 p.current_account_info.block_count 1;
  epoch = planned_epoch p;
}

unfoldable pub rollback_instructions : RollbackPlanner → RollbackInstructions
rollback_instructions p = record {
  block_hash = hash p.head_block.block;
  block_sub_type = block_sub_type p;
  account = p.account;
  remove_pending = remove_pending p;
  add_pending = add_pending p;
  set_account_info = previous_account_info p;
  old_account_info = p.current_account_info;
  clear_successor = elim p.previous_block [ none ↦ none | some s ↦ some (hash s.block) ];
  new_balance = planned_balance p;
  new_representative = p.previous_representative;
}

-- `RollbackPlanner::roll_back_head_block`
unfoldable pub plan : RollbackPlanner → Result Stop RollbackStep
plan p = do
  ensure_block_is_not_confirmed p
  elim (block_sub_type p) [
    | BlockSubType.send ↦ elim (destination_step p) [
      | err e ↦ err e
      | ok none ↦ ok (RollbackStep.roll_back_block (rollback_instructions p))
      | ok (some step) ↦ ok step
    ]
    | _ ↦ ok (RollbackStep.roll_back_block (rollback_instructions p))
  ]
