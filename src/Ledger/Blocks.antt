-- ===== src/Ledger/Blocks.antt =====
-- store_lmdb/src/block_store.rs: the block table. A successor is written into the bytes of the
-- previous block; `none` is a failed `unwrap` or `expect`.
pub mod Laws
use rsbanano_node.Prelude.{Option, some, if◌then◌else◌}
use rsbanano_node.Prelude.Table.{Table, get, put, del, nat_eq}
use rsbanano_node.Prelude.Partial.{◌>>=◌}
use rsbanano_node.Core.Types.{BlockHash, is_zero}
use rsbanano_node.Core.Block.{hash, previous}
use rsbanano_node.Core.Saved.{SavedBlock, reload}

abbrev pub Blocks : Type 0
Blocks = Table BlockHash SavedBlock

abbrev pub with_successor : BlockHash → SavedBlock → SavedBlock
with_successor h s = record s { sideband = record (s.sideband) { successor = h } }

unfoldable pub set_successor : Blocks → BlockHash → BlockHash → Option Blocks
set_successor blocks h next = do
  saved ← get h blocks
  some (put h (with_successor next saved) blocks)

unfoldable pub update_predecessor : Blocks → SavedBlock → Option Blocks
unfolding set_successor
update_predecessor blocks s =
    if is_zero (previous s.block)
    then some blocks
    else set_successor blocks (previous s.block) (hash s.block)

unfoldable pub put_block : Blocks → SavedBlock → Option Blocks
unfolding update_predecessor
put_block blocks s = update_predecessor (put (hash s.block) (reload s) blocks) s

unfoldable pub successor_clear : Blocks → BlockHash → Option Blocks
unfolding set_successor
successor_clear blocks h = set_successor blocks h 0

unfoldable pub delete_block : Blocks → BlockHash → Option Blocks
delete_block blocks h = del h blocks
