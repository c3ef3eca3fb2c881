-- ===== src/Insertion/Inserter.antt =====
-- ledger/src/block_insertion/block_inserter.rs: the writes of an insertion, in their order. The
-- observer only counts, and is left out; `none` is a panic.
use rsbanano_node.Prelude.{Option, none, some, not, if◌then◌else◌}
use rsbanano_node.Prelude.Table.{Table, put, del}
use rsbanano_node.Prelude.Partial.{◌>>=◌}
use rsbanano_node.Prelude.Word.{add_u64}
use rsbanano_node.Core.Types.{is_zero}
use rsbanano_node.Core.Amount.{wrapping_sub}
use rsbanano_node.Core.Block.{Block}
use rsbanano_node.Core.Saved.{SavedBlock, PendingKey, PendingInfo, pending_keys}
use rsbanano_node.Ledger.Weights.{Weights, representation_add, representation_add_dual}
use rsbanano_node.Ledger.Blocks.{put_block}
use rsbanano_node.Ledger.State.{Ledger, update_account}
use rsbanano_node.Validation.Validate.{BlockInsertInstructions}

abbrev pub Pending : Type 0
Pending = Table PendingKey PendingInfo

unfoldable pub delete_old_pending_info : BlockInsertInstructions → Pending → Option Pending
delete_old_pending_info i t = elim i.delete_pending [ none ↦ some t | some key ↦ del key t ]

unfoldable pub insert_new_pending_info : BlockInsertInstructions → Pending → Pending
insert_new_pending_info i t = elim i.insert_pending [ none ↦ t | some (key, info) ↦ put key info t ]

unfoldable pub update_representative_cache : BlockInsertInstructions → Weights → Option Weights
update_representative_cache i w =
    if not (is_zero i.old_account_info.head)
    then representation_add_dual w i.old_account_info.representative
        (wrapping_sub 0 i.old_account_info.balance) i.set_account_info.representative
        i.set_account_info.balance
    else representation_add w i.set_account_info.representative i.set_account_info.balance

abbrev pub saved_block : Block → BlockInsertInstructions → SavedBlock
saved_block b i = record { block = b; sideband = i.set_sideband }

unfoldable pub insert : Ledger → Block → BlockInsertInstructions → Option (Ledger × SavedBlock)
insert l b i = do
  blocks ← put_block l.blocks (saved_block b i)
  l' ← update_account (record l { blocks = blocks }) i.account i.old_account_info i.set_account_info
  pending ← delete_old_pending_info i l'.pending
  weights ← update_representative_cache i l'.weights
  some (
    record l' {
      pending = insert_new_pending_info i pending;
      weights = weights;
      block_count = add_u64 l'.block_count 1;
    },
    saved_block b i,
  )
