-- ===== src/Cementing/Dependents.antt =====
-- core/src/blocks/mod.rs and ledger/src/dependent_blocks_finder.rs: the blocks that a block depends
-- on, its previous block and the one that it links to.
use rsbanano_node.Prelude.{
  Bool, true, false, not, ◌&&◌, some, List, [], ◌∷◌, ◌==◌, ltb, if◌then◌else◌, unwrap_or,
}
use rsbanano_node.Prelude.Table.{get, nat_eq}
use rsbanano_node.Prelude.Partial.{◌>>=◌}
use rsbanano_node.Core.Types.{Account, BlockHash, is_zero}
use rsbanano_node.Core.Epoch.{Epochs, is_epoch_link}
use rsbanano_node.Core.Block.{
  Block, StateBlock, legacy_send, legacy_receive, legacy_open, legacy_change, state,
}
use rsbanano_node.Core.Saved.{SavedBlock, saved_balance}
use rsbanano_node.Ledger.State.{Ledger, Constants, confirmed_exists_or_pruned}

pub record DependentBlocks : Type 0 where
  pub previous_dependent : BlockHash
  pub link_dependent : BlockHash

abbrev pub no_dependents : DependentBlocks
no_dependents = record { previous_dependent = 0; link_dependent = 0 }

-- `iter`, which skips what is zero.
abbrev pub dependents_iter : DependentBlocks → List BlockHash
dependents_iter d =
    let link : List BlockHash = if is_zero d.link_dependent then [] else d.link_dependent ∷ [] in
    if is_zero d.previous_dependent then link else d.previous_dependent ∷ link

abbrev pub saved_is_send : SavedBlock → Bool
saved_is_send s = elim s.block [
  | legacy_send b ↦ true
  | state b ↦ s.sideband.details.is_send
  | _ ↦ false
]

-- The kinds of block that name what they depend on without a look at the ledger.
abbrev pub legacy_dependents : Account → Block → DependentBlocks
legacy_dependents genesis_account (legacy_send b) = record {
  previous_dependent = b.previous;
  link_dependent = 0;
}
legacy_dependents genesis_account (legacy_change b) = record {
  previous_dependent = b.previous;
  link_dependent = 0;
}
legacy_dependents genesis_account (legacy_receive b) = record {
  previous_dependent = b.previous;
  link_dependent = b.source;
}
legacy_dependents genesis_account (legacy_open b) =
    if b.account == genesis_account
    then no_dependents
    else record { previous_dependent = b.source; link_dependent = 0 }
legacy_dependents genesis_account (state b) = no_dependents

-- `SavedBlock::dependent_blocks`
unfoldable pub dependent_blocks : Epochs → Account → SavedBlock → DependentBlocks
dependent_blocks epochs genesis_account s = elim s.block [
  | state b ↦ record {
    previous_dependent = b.previous;
    link_dependent =
        if not (saved_is_send s) && not (is_epoch_link epochs b.link) then b.link else 0;
  }
  | other ↦ legacy_dependents genesis_account other
]

-- `DependentBlocksFinder::is_send`, by the balance before.
unfoldable pub finder_is_send : Ledger → StateBlock → Bool
finder_is_send l b =
    if is_zero b.previous
    then false
    else ltb b.balance (unwrap_or (get b.previous l.blocks >>= λ p. some (saved_balance p)) 0)

-- `find_dependent_blocks_for_unsaved_block`
unfoldable pub find_dependent_blocks_for_unsaved_block :
    Constants → Ledger → Block → DependentBlocks
find_dependent_blocks_for_unsaved_block c l b = elim b [
  | state s ↦ record {
    previous_dependent = s.previous;
    link_dependent =
        if not (is_epoch_link c.epochs s.link) && not (finder_is_send l s) then s.link else 0;
  }
  | other ↦ legacy_dependents c.genesis_account other
]

abbrev pub all_confirmed : Ledger → List BlockHash → Bool
all_confirmed l [] = true
all_confirmed l (h ∷ hs) = confirmed_exists_or_pruned l h && all_confirmed l hs

unfoldable pub dependents_confirmed : Constants → Ledger → SavedBlock → Bool
dependents_confirmed c l s =
    all_confirmed l (dependents_iter (dependent_blocks c.epochs c.genesis_account s))

unfoldable pub dependents_confirmed_for_unsaved_block : Constants → Ledger → Block → Bool
dependents_confirmed_for_unsaved_block c l b =
    all_confirmed l (dependents_iter (find_dependent_blocks_for_unsaved_block c l b))
