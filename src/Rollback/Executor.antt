-- ===== src/Rollback/Executor.antt =====
-- ledger/src/block_rollback/instructions_executor.rs: the writes of a rollback, in their order. The
-- observer only counts, and is left out; `none` is a panic.
use rsbanano_node.Prelude.{Option, none, some}
use rsbanano_node.Prelude.Table.{Table, put, del}
use rsbanano_node.Prelude.Partial.{◌>>=◌}
use rsbanano_node.Prelude.Word.{sub_u64}
use rsbanano_node.Core.Amount.{wrapping_sub}
use rsbanano_node.Core.Saved.{PendingKey, PendingInfo, pending_keys}
use rsbanano_node.Ledger.Weights.{Weights, representation_add, representation_add_dual}
use rsbanano_node.Ledger.Blocks.{Blocks, delete_block, successor_clear}
use rsbanano_node.Ledger.State.{Ledger, update_account}
use rsbanano_node.Rollback.Planner.{RollbackInstructions}

abbrev pub put_added :
    RollbackInstructions → Table PendingKey PendingInfo → Table PendingKey PendingInfo
put_added i t = elim i.add_pending [ none ↦ t | some (key, info) ↦ put key info t ]

unfoldable pub update_pending_table :
    RollbackInstructions → Table PendingKey PendingInfo → Option (Table PendingKey PendingInfo)
update_pending_table i t = elim i.remove_pending [
  | none ↦ some (put_added i t)
  | some key ↦ del key t >>= λ t'. some (put_added i t')
]

unfoldable pub update_block_table : RollbackInstructions → Blocks → Option Blocks
update_block_table i blocks = do
  rest ← delete_block blocks i.block_hash
  elim i.clear_successor [ none ↦ some rest | some h ↦ successor_clear rest h ]

unfoldable pub roll_back_representative_cache : RollbackInstructions → Weights → Option Weights
roll_back_representative_cache i w = elim i.new_representative [
  | some previous_rep ↦
      representation_add_dual w i.old_account_info.representative
        (wrapping_sub 0 i.old_account_info.balance) previous_rep i.new_balance
  | none ↦
      representation_add w i.old_account_info.representative
        (wrapping_sub 0 i.old_account_info.balance)
]

unfoldable pub execute : RollbackInstructions → Ledger → Option Ledger
execute i l = do
  pending ← update_pending_table i l.pending
  l' ←
      update_account (record l { pending = pending }) i.account i.old_account_info
        i.set_account_info
  blocks ← update_block_table i l'.blocks
  weights ← roll_back_representative_cache i l'.weights
  some (record l' { blocks = blocks; weights = weights; block_count = sub_u64 l'.block_count 1 })
