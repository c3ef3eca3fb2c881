-- ===== src/Rollback/Factory.antt =====
-- ledger/src/block_rollback/planner_factory.rs: what the planner is shown of the ledger.
use rsbanano_node.Prelude.{ℕ, suc, Option, none, some, if◌then◌else◌, unwrap_or}
use rsbanano_node.Prelude.Table.{get, nat_eq}
use rsbanano_node.Prelude.Check.{Result, ok, err, ◌>>=◌}
use rsbanano_node.Core.Types.{Account, BlockHash, PublicKey, is_zero}
use rsbanano_node.Core.Block.{
  hash, previous, representative_field, source_or_link, destination_or_link,
}
use rsbanano_node.Core.Saved.{
  SavedBlock, ConfirmationHeightInfo, default_info, pending_keys, saved_account, height,
}
use rsbanano_node.Ledger.State.{Ledger, Constants}
use rsbanano_node.Rollback.Finder.{find_rep_block}
use rsbanano_node.Rollback.Planner.{Stop, RollbackPlanner}

abbrev pub load_block : Ledger → BlockHash → Result Stop SavedBlock
load_block l h = elim (get h l.blocks) [ none ↦ err Stop.block_not_found | some s ↦ ok s ]

abbrev block_account : Ledger → BlockHash → Option Account
block_account l h = elim (get h l.blocks) [ none ↦ none | some s ↦ some (saved_account s) ]

abbrev pub planner_account : Ledger → SavedBlock → Result Stop Account
planner_account l head = elim (block_account l (hash head.block)) [
  | none ↦ err Stop.account_not_found
  | some a ↦ ok a
]

abbrev pub planner_previous : Ledger → SavedBlock → Result Stop (Option SavedBlock)
planner_previous l head =
    if is_zero (previous head.block)
    then ok none
    else load_block l (previous head.block) >>= λ s. ok (some s)

-- `Ledger::representative_block_hash`, for a block below `head`: the chain of previous blocks is not
-- longer than its height.
abbrev pub representative_block_hash : Ledger → SavedBlock → Result Stop BlockHash
representative_block_hash l head =
    if is_zero (previous head.block)
    then ok 0
    else elim (find_rep_block (suc (height head)) l.blocks (previous head.block)) [
      | none ↦ err Stop.endless
      | some h ↦ ok h
    ]

abbrev representative_at : Ledger → BlockHash → Result Stop (Option PublicKey)
representative_at l rep_block_hash =
    if is_zero rep_block_hash
    then ok none
    else load_block l rep_block_hash >>= λ s. ok (some (unwrap_or (representative_field s.block) 0))

unfoldable pub get_previous_representative : Ledger → SavedBlock → Result Stop (Option PublicKey)
get_previous_representative l head = do
  rep_block_hash ← representative_block_hash l head
  representative_at l rep_block_hash

abbrev pub confirmation_of : Ledger → Account → ConfirmationHeightInfo
confirmation_of l a = unwrap_or (get a l.confirmation_height) (record { height = 0; frontier = 0 })

abbrev pub planner_of :
    Constants
    → ℕ
    → Ledger
    → SavedBlock
    → Account
    → Option PublicKey
    → Option SavedBlock
    → RollbackPlanner
planner_of c now l head account previous_representative previous_block = record {
  epochs = c.epochs;
  head_block = head;
  account = account;
  current_account_info = unwrap_or (get account l.accounts) default_info;
  previous_representative = previous_representative;
  previous_block = previous_block;
  linked_account = unwrap_or (block_account l (source_or_link head.block)) 0;
  pending_receive =
      get
        (record {
          receiving_account = destination_or_link head.block;
          send_block_hash = hash head.block;
        })
        l.pending;
  latest_block_for_destination = elim (get (destination_or_link head.block) l.accounts) [
    | none ↦ none
    | some info ↦ some info.head
  ];
  confirmation_height = confirmation_of l (saved_account head);
  seconds_since_epoch = now;
}

unfoldable pub create_planner : Constants → ℕ → Ledger → SavedBlock → Result Stop RollbackPlanner
create_planner c now l head = do
  account ← planner_account l head
  previous_representative ← get_previous_representative l head
  previous_block ← planner_previous l head
  ok (planner_of c now l head account previous_representative previous_block)
