-- ===== src/Rollback/Finder.antt =====
-- ledger/src/representative_block_finder.rs: the last block at or before a block that names a
-- representative. The loop is on fuel; `none` is a loop that has not ended.
use rsbanano_node.Prelude.{ℕ, zero, suc, Option, none, some, if◌then◌else◌}
use rsbanano_node.Prelude.Table.{get, nat_eq}
use rsbanano_node.Core.Types.{BlockHash, is_zero}
use rsbanano_node.Core.Block.{Block, legacy_send, legacy_receive, legacy_open, legacy_change, state}
use rsbanano_node.Ledger.Blocks.{Blocks}

-- The next block to look at, and the result, which is 0 as long as there is none.
abbrev pub rep_step : Block → BlockHash × BlockHash
rep_step (legacy_send b) = (b.previous, 0)
rep_step (legacy_receive b) = (b.previous, 0)
rep_step (legacy_open b) = (0, b.hash)
rep_step (legacy_change b) = (0, b.hash)
rep_step (state b) = (0, b.hash)

unfoldable pub find_rep_block : ℕ → Blocks → BlockHash → Option BlockHash
find_rep_block zero blocks current = none
find_rep_block (suc fuel) blocks current = elim (get current blocks) [
  | none ↦ some 0
  | some s ↦
      let rest = find_rep_block fuel blocks (rep_step s.block).0 in
      if is_zero (rep_step s.block).1 then rest else some (rep_step s.block).1
]
