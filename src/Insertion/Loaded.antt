-- ===== src/Insertion/Loaded.antt =====
-- The validator's view of a valid ledger, as far as `Stored` asks for it.
use rsbanano_node.Prelude.{ℕ, ◌≡◌, ◌≢◌, true, none, some, Option, arith, refl, ap, sym, ◌∙◌}
use rsbanano_node.Prelude.Check.{ok}
use rsbanano_node.Prelude.Table.{get, nat_eq}
use rsbanano_node.Core.Epoch.{Epoch}
use rsbanano_node.Core.Block.{
  Block, block_type, valid_predecessor, legacy_send, legacy_receive, legacy_open, legacy_change,
  state, previous,
}
use rsbanano_node.Core.BlockType.{
  BlockType, valid_send_block_predecessor, valid_receive_block_predecessor,
  valid_change_block_predecessor,
}
use rsbanano_node.Core.Saved.{SavedBlock, AccountInfo, reload, saved_epoch}
use rsbanano_node.Ledger.State.{Ledger, Constants}
use rsbanano_node.Ledger.Valid.{IsValid}
use rsbanano_node.Validation.Helpers.{BlockValidator, old_epoch_version}
use rsbanano_node.Validation.Rules.{ensure_valid_predecessor}
use rsbanano_node.Validation.Accepted.{Accepted, previous-head}
use rsbanano_node.Insertion.Factory.{
  create_validator, load_previous_block, load_pending, account_of, get_account,
}
use rsbanano_node.Insertion.View.{InRange, view, view-Bounded}
use rsbanano_node.Insertion.Stored.{Loaded}

legacy_epoch_of :
    (s : SavedBlock) (b : Block)
    → s.block ≡ b
    → block_type b ≢ BlockType.state
    → reload s ≡ s
    → saved_epoch s ≡ Epoch.epoch0
unfolding reload
legacy_epoch_of s (legacy_send b) q ne e = ground (arith, ap saved_epoch e)
legacy_epoch_of s (legacy_receive b) q ne e = ground (arith, ap saved_epoch e)
legacy_epoch_of s (legacy_open b) q ne e = ground (arith, ap saved_epoch e)
legacy_epoch_of s (legacy_change b) q ne e = ground (arith, ap saved_epoch e)
legacy_epoch_of s (state b) q ne e = absurd (ne refl)

-- A legacy block follows legacy blocks only.
legacy_predecessor :
    (b : Block) (t : BlockType)
    → block_type b ≢ BlockType.state
    → valid_predecessor b t ≡ true
    → t ≢ BlockType.state
unfolding valid_send_block_predecessor valid_receive_block_predecessor
    valid_change_block_predecessor
legacy_predecessor b t ne h = ground arith

predecessor_valid :
    (v : BlockValidator) (p : SavedBlock)
    → ensure_valid_predecessor v ≡ ok tt
    → previous v.block ≢ 0
    → v.previous_block ≡ some p
    → valid_predecessor v.block (block_type p.block) ≡ true
unfolding ensure_valid_predecessor
predecessor_valid v p h ne e = ground arith

module _ (c : Constants) (now : ℕ) (l : Ledger) (b : Block) where
  abbrev v : BlockValidator
  v = view c now l b

  previous_is :
      (s : SavedBlock) (info : AccountInfo)
      → get info.head l.blocks ≡ some s
      → info.head ≢ 0
      → previous v.block ≡ info.head
      → v.previous_block ≡ some s
  unfolding create_validator load_previous_block
  previous_is s info f nz q = ground arith

  legacy_of :
      IsValid l
      → Accepted v
      → block_type b ≢ BlockType.state
      → (o : Option AccountInfo) → v.old_account_info ≡ o
      → old_epoch_version v ≡ Epoch.epoch0
  unfolding create_validator
  legacy_of k a ne none e = ground arith
  legacy_of k a ne (some info) e =
      let h = k.heads v.account info e in
      let (q, found) = previous-head v info a.previous_correct e in
      let p : v.previous_block ≡ some h.block = previous_is h.block info h.found h.nonzero q in
      let nonzero : previous v.block ≢ 0 = λ z. h.nonzero (sym q ∙ z) in
      let t =
        legacy_predecessor b (block_type h.block.block) ne
          (predecessor_valid v h.block a.predecessor nonzero p) in
      ground (
        arith,
        h.epoch,
        legacy_epoch_of h.block h.block.block refl t (k.stored info.head h.block h.found).1,
      )

  pub view-Loaded : IsValid l → InRange b → Accepted v → Loaded v
  unfolding create_validator load_pending account_of get_account
  view-Loaded k r a = record {
    bounded = view-Bounded c now l b k r a;
    account = ground arith;
    no_source = λ z. ground arith;
    legacy = λ ne. legacy_of k a ne v.old_account_info refl;
  }
