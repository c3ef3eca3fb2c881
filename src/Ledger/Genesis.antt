-- ===== src/Ledger/Genesis.antt =====
-- ledger/src/ledger.rs and ledger_constants.rs: the genesis block, and a ledger that holds it alone.
use rsbanano_node.Prelude.{ℕ, ◌-◌, false, Option, some, []}
use rsbanano_node.Prelude.Table.{put, nat_eq}
use rsbanano_node.Prelude.Partial.{◌>>=◌}
use rsbanano_node.Prelude.Word.{u128_mod}
use rsbanano_node.Core.Types.{Account}
use rsbanano_node.Core.Amount.{Amount}
use rsbanano_node.Core.Epoch.{Epoch}
use rsbanano_node.Core.Block.{hash}
use rsbanano_node.Core.Saved.{BlockSideband}
use rsbanano_node.Ledger.Blocks.{put_block}
use rsbanano_node.Ledger.State.{Ledger, Constants}

-- `Amount::MAX`
abbrev pub max_amount : Amount
max_amount = u128_mod - 1

-- `now` is the time at which the constants are made.
abbrev pub genesis_sideband : Account → ℕ → BlockSideband
genesis_sideband account now = record {
  height = 1;
  timestamp = now;
  successor = 0;
  account = account;
  balance = max_amount;
  details = record { epoch = Epoch.epoch0; is_send = false; is_receive = false; is_epoch = false };
  source_epoch = Epoch.epoch0;
}

unfoldable pub add_genesis_block : Constants → ℕ → Ledger → Option Ledger
add_genesis_block c now l = do
  blocks ← put_block l.blocks c.genesis_block
  some (record l {
    blocks = blocks;
    confirmation_height =
        put c.genesis_account (record { height = 1; frontier = hash c.genesis_block.block })
          l.confirmation_height;
    accounts =
        put c.genesis_account
          (record {
            head = hash c.genesis_block.block;
            representative = c.genesis_account;
            open_block = hash c.genesis_block.block;
            balance = max_amount;
            modified = now;
            block_count = 1;
            epoch = Epoch.epoch0;
          })
          l.accounts;
    weights = record (l.weights) { store = put c.genesis_account max_amount l.weights.store };
  })

-- The tables of a new store.
abbrev pub new_store : Amount → Ledger
new_store min_weight = record {
  blocks = [];
  accounts = [];
  pending = [];
  pruned = [];
  pruned_count = 0;
  confirmation_height = [];
  weights = record { store = []; weight_cache = []; min_weight = min_weight };
  block_count = 0;
  account_count = 0;
  cemented_count = 0;
}
