-- ===== src/Ledger/State.antt =====
-- ledger/src/ledger.rs, ledger_set_any.rs and ledger_set_confirmed.rs: the tables, the counters of
-- the cache, the constants, and the reads.
use rsbanano_node.Prelude.{
  ℕ, Bool, true, false, ◌&&◌, not, Option, none, some, List, [], ◌∷◌, leb, ◌==◌, if◌then◌else◌,
  is_some,
}
use rsbanano_node.Prelude.Table.{Table, get, put, del, nat_eq}
use rsbanano_node.Prelude.Partial.{◌>>=◌}
use rsbanano_node.Prelude.Word.{add_u64, sub_u64}
use rsbanano_node.Core.Types.{Account, BlockHash, Verify, is_zero}
use rsbanano_node.Core.Epoch.{Epochs, epoch_eq}
use rsbanano_node.Core.Work.{WorkThresholds}
use rsbanano_node.Core.Saved.{
  SavedBlock, AccountInfo, PendingKey, PendingInfo, ConfirmationHeightInfo, saved_account, height,
}
use rsbanano_node.Ledger.Weights.{Weights}
use rsbanano_node.Ledger.Blocks.{Blocks}

-- `LedgerConstants`, with the signature scheme and the clock that the code calls.
pub record Constants : Type 0 where
  pub epochs : Epochs
  pub work : WorkThresholds
  pub genesis_block : SavedBlock
  pub genesis_account : Account
  pub verify : Verify

pub data BlockStatus : Type 0 where
  progress bad_signature old negative_spend fork unreceivable gap_previous gap_source : BlockStatus
  gap_epoch_open_pending opened_burn_account balance_mismatch representative_mismatch : BlockStatus
  block_position insufficient_work : BlockStatus

pub record Ledger : Type 0 where
  pub blocks : Blocks
  pub accounts : Table Account AccountInfo
  pub pending : Table PendingKey PendingInfo
  pub pruned : List BlockHash
  pub confirmation_height : Table Account ConfirmationHeightInfo
  pub weights : Weights
  pub block_count : ℕ
  pub account_count : ℕ
  pub cemented_count : ℕ
  pub pruned_count : ℕ

abbrev pub contains : BlockHash → List BlockHash → Bool
contains h [] = false
contains h (x ∷ xs) = if x == h then true else contains h xs

abbrev pub block_exists : Ledger → BlockHash → Bool
block_exists l h = is_some (get h l.blocks)

unfoldable pub block_exists_or_pruned : Ledger → BlockHash → Bool
block_exists_or_pruned l h = if contains h l.pruned then true else block_exists l h

-- The first pending entry at or after (account, 1) belongs to the account: `AnyReceivableIterator`
-- walks the table in the order of its keys, and starts at the hash that follows zero.
abbrev pub receivable_exists_in : Table PendingKey PendingInfo → Account → Bool
receivable_exists_in [] a = false
receivable_exists_in ((k, v) ∷ t) a =
    if k.receiving_account == a && not (is_zero k.send_block_hash)
    then true
    else receivable_exists_in t a

unfoldable pub receivable_exists : Ledger → Account → Bool
receivable_exists l a = receivable_exists_in l.pending a

-- `LedgerSetConfirmed::get_block`
unfoldable pub confirmed_block : Ledger → BlockHash → Option SavedBlock
confirmed_block l h = do
  block ← get h l.blocks
  info ← get (saved_account block) l.confirmation_height
  if leb (height block) info.height then some block else none

unfoldable pub confirmed_exists_or_pruned : Ledger → BlockHash → Bool
unfolding confirmed_block
confirmed_exists_or_pruned l h = if contains h l.pruned then true else is_some (confirmed_block l h)

abbrev del_upgraded :
    Ledger → Account → AccountInfo → AccountInfo → Option (Table Account AccountInfo)
del_upgraded l account old_info new_info =
    if not (is_zero old_info.head) && not (epoch_eq old_info.epoch new_info.epoch)
    then del account l.accounts
    else some l.accounts

set_account : Ledger → Account → AccountInfo → AccountInfo → Option Ledger
set_account l account old_info new_info = do
  accounts ← del_upgraded l account old_info new_info
  some (record l {
    accounts = put account new_info accounts;
    account_count =
        if is_zero old_info.head && new_info.open_block == new_info.head
        then add_u64 l.account_count 1
        else l.account_count;
  })

remove_account : Ledger → Account → Option Ledger
remove_account l account = do
  accounts ← del account l.accounts
  some (record l { accounts = accounts; account_count = sub_u64 l.account_count 1 })

-- `Ledger::update_account`; the assertions of a debug build are left out.
unfoldable pub update_account : Ledger → Account → AccountInfo → AccountInfo → Option Ledger
unfolding set_account remove_account
update_account l account old_info new_info =
    if not (is_zero new_info.head)
    then set_account l account old_info new_info
    else remove_account l account
