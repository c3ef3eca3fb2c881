-- ===== src/Ledger/Valid.antt =====
-- The invariant of the ledger's tables, and the money supply.
use rsbanano_node.Prelude.{◌+◌, ◌<◌, ◌≡◌, ◌≢◌, true, none, some, is_some}
use rsbanano_node.Prelude.Table.{IsUnique, get, total, nat_eq}
use rsbanano_node.Prelude.Word.{u128_mod}
use rsbanano_node.Core.Types.{Account, BlockHash}
use rsbanano_node.Core.Amount.{Amount}
use rsbanano_node.Core.Block.{hash, previous}
use rsbanano_node.Core.Saved.{
  SavedBlock, AccountInfo, PendingKey, pending_keys, reload, saved_account, saved_balance,
  saved_epoch, height,
}
use rsbanano_node.Ledger.State.{Ledger, block_exists_or_pruned}

abbrev pub balance_sum : Ledger → Amount
balance_sum l = total (λ info. info.balance) l.accounts

abbrev pub pending_sum : Ledger → Amount
pending_sum l = total (λ p. p.amount) l.pending

-- All that accounts hold, and all that is on its way.
abbrev pub supply : Ledger → Amount
supply l = balance_sum l + pending_sum l

-- An account's record agrees with the block at its head.
pub record Head (l : Ledger) (a : Account) (info : AccountInfo) : Type 0 where
  pub block : SavedBlock
  pub found : get info.head l.blocks ≡ some block
  pub nonzero : info.head ≢ 0
  pub balance : saved_balance block ≡ info.balance
  pub epoch : saved_epoch block ≡ info.epoch
  pub count : height block ≡ info.block_count
  pub account : saved_account block ≡ a

pub record IsValid (l : Ledger) : Type 0 where
  pub heads : (a : Account) (info : AccountInfo) → get a l.accounts ≡ some info → Head l a info
  pub sources :
      (key : PendingKey)
      → is_some (get key l.pending) ≡ true
      → block_exists_or_pruned l key.send_block_hash ≡ true
  pub stored :
      (h : BlockHash) (s : SavedBlock)
      → get h l.blocks ≡ some s
      → (hash s.block ≡ h) × (reload s ≡ s)
  pub accounts_unique : IsUnique l.accounts
  pub pending_unique : IsUnique l.pending
  pub bounded : supply l < u128_mod

-- Every block stands once, above its previous one, which is stored or pruned; no block has the hash
-- 0, and no account has a block after its head.
pub record IsChained (l : Ledger) : Type 0 where
  pub falls :
      (j : BlockHash) (s p : SavedBlock)
      → get j l.blocks ≡ some s
      → get (previous s.block) l.blocks ≡ some p
      → height p < height s
  pub known :
      (j : BlockHash) (s : SavedBlock)
      → get j l.blocks ≡ some s
      → previous s.block ≢ 0
      → block_exists_or_pruned l (previous s.block) ≡ true
  pub no_zero : get 0 l.blocks ≡ none
  pub unique : IsUnique l.blocks
  pub tips :
      (a : Account) (info : AccountInfo) (x : SavedBlock)
      → get a l.accounts ≡ some info
      → get info.head l.blocks ≡ some x
      → x.sideband.successor ≡ 0
