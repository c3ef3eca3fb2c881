-- ===== src/Insertion/Factory.antt =====
-- ledger/src/block_insertion/validator_factory.rs: what the validator is shown of the ledger.
use rsbanano_node.Prelude.{ℕ, ◌&&◌, not, Option, none, some, if◌then◌else◌, unwrap_or}
use rsbanano_node.Prelude.Table.{get, nat_eq}
use rsbanano_node.Core.Types.{Account, is_zero}
use rsbanano_node.Core.Block.{Block, account_field, previous, hash, source_or_link}
use rsbanano_node.Core.Saved.{SavedBlock, PendingKey, PendingInfo, pending_keys, saved_account}
use rsbanano_node.Ledger.State.{Ledger, Constants, block_exists_or_pruned, receivable_exists}
use rsbanano_node.Validation.Helpers.{BlockValidator}

unfoldable pub load_previous_block : Ledger → Block → Option SavedBlock
load_previous_block l b = if not (is_zero (previous b)) then get (previous b) l.blocks else none

unfoldable pub get_account : Block → Option SavedBlock → Option Account
get_account b previous_block = elim (account_field b) [
  | some account ↦ some account
  | none ↦ elim previous_block [ some p ↦ some (saved_account p) | none ↦ none ]
]

-- The account that the block is for, or the burn account 0.
unfoldable pub account_of : Ledger → Block → Account
unfolding load_previous_block get_account
account_of l b = unwrap_or (get_account b (load_previous_block l b)) 0

abbrev pub receive_key : Ledger → Block → PendingKey
receive_key l b = record { receiving_account = account_of l b; send_block_hash = source_or_link b }

unfoldable pub load_pending : Ledger → Block → Option PendingInfo
load_pending l b = if is_zero (source_or_link b) then none else get (receive_key l b) l.pending

-- `now` is `seconds_since_epoch()`.
unfoldable pub create_validator : Constants → Ledger → ℕ → Block → BlockValidator
create_validator c l now b = record {
  block = b;
  epochs = c.epochs;
  thresholds = c.work;
  block_exists = block_exists_or_pruned l (hash b);
  account = account_of l b;
  previous_block = load_previous_block l b;
  old_account_info = get (account_of l b) l.accounts;
  pending_receive_info = load_pending l b;
  any_pending_exists = receivable_exists l (account_of l b);
  source_block_exists =
      not (is_zero (source_or_link b)) && block_exists_or_pruned l (source_or_link b);
  seconds_since_epoch = now;
  verify = c.verify;
}
