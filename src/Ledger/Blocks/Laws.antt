-- ===== src/Ledger/Blocks/Laws.antt =====
-- The block table after a block is put: the block itself, and a successor on the block before it.
use rsbanano_node.Prelude.{
  ◌≡◌, ◌≢◌, Option, none, some, arith, ◌==◌, ◌&&◌, not, if◌then◌else◌, Option-cases, inl, inr,
}
use rsbanano_node.Prelude.Table.{get, put, nat_eq, get-put, IsUnique, put-IsUnique}
use rsbanano_node.Core.Types.{BlockHash, is_zero}
use rsbanano_node.Core.Block.{hash, previous}
use rsbanano_node.Core.Saved.{SavedBlock, reload}
use rsbanano_node.Ledger.Blocks.{
  Blocks, with_successor, put_block, set_successor, update_predecessor,
}

-- What becomes of a stored block when `s` is put.
abbrev pub touched : SavedBlock → BlockHash → SavedBlock → SavedBlock
touched s j x =
    if not (is_zero (previous s.block)) && previous s.block == j
    then with_successor (hash s.block) x
    else x

pub get-put_block_self :
    (blocks blocks' : Blocks) (s : SavedBlock)
    → previous s.block ≢ hash s.block
    → put_block blocks s ≡ some blocks'
    → get (hash s.block) blocks' ≡ some (reload s)
unfolding put_block
get-put_block_self blocks blocks' s ne h =
    let t = put (hash s.block) (reload s) blocks in
    elim (Option-cases (get (previous s.block) t)) [
      | inl e ↦ ground (arith, get-put (hash s.block) (hash s.block) (reload s) blocks)
      | inr (x, e) ↦ ground (
        arith,
        get-put (hash s.block) (hash s.block) (reload s) blocks,
        get-put (previous s.block) (hash s.block) (with_successor (hash s.block) x) t,
      )
    ]

pub get-put_block_ne :
    (blocks blocks' : Blocks) (s : SavedBlock) (j : BlockHash)
    → hash s.block ≢ j
    → put_block blocks s ≡ some blocks'
    → get j blocks' ≡ (elim (get j blocks) as (λ _. Option SavedBlock) [
      | none ↦ none
      | some x ↦ some (touched s j x)
    ])
unfolding put_block
get-put_block_ne blocks blocks' s j ne h =
    let t = put (hash s.block) (reload s) blocks in
    elim (Option-cases (get (previous s.block) t)) [
      | inl e ↦ ground (arith, get-put (hash s.block) j (reload s) blocks)
      | inr (x, e) ↦ ground (
        arith,
        get-put (hash s.block) j (reload s) blocks,
        get-put (previous s.block) j (with_successor (hash s.block) x) t,
      )
    ]

pub reload-with_successor :
    (h : BlockHash) (s : SavedBlock)
    → reload s ≡ s
    → reload (with_successor h s) ≡ with_successor h s
unfolding reload
reload-with_successor h s e = ground arith

-- Putting a block keeps each hash once.
pub put_block-IsUnique :
    (blocks blocks' : Blocks) (s : SavedBlock)
    → IsUnique blocks
    → put_block blocks s ≡ some blocks'
    → IsUnique blocks'
unfolding put_block set_successor update_predecessor
put_block-IsUnique blocks blocks' s u h =
    let t = put (hash s.block) (reload s) blocks in
    let ut = put-IsUnique (hash s.block) (reload s) blocks u in
    elim (Option-cases (get (previous s.block) t)) [
      | inl e ↦ ground (arith, ut)
      | inr (x, e) ↦
          ground (arith, ut, put-IsUnique (previous s.block) (with_successor (hash s.block) x) t ut)
    ]
