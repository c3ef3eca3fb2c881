-- ===== src/Tests/Network.antt =====
-- A new network: the genesis block, and a first send from its account.
use rsbanano_node.Prelude.{◌+◌, ◌-◌, ◌<◌, ◌≡◌, [], ◌∷◌, some, arith, refl, map_or}
use rsbanano_node.Prelude.Word.{u64_mod}
use rsbanano_node.Prelude.Table.{nat_eq}
use rsbanano_node.Core.Epoch.{Epoch}
use rsbanano_node.Core.Block.{Block, state}
use rsbanano_node.Core.Saved.{SavedBlock, pending_keys}
use rsbanano_node.Ledger.State.{Ledger}
use rsbanano_node.Ledger.Genesis.{add_genesis_block, new_store, max_amount}
use rsbanano_node.Validation.Balance.{minted}
use rsbanano_node.Insertion.Process.{process, done}
use rsbanano_node.Insertion.View.{view}
use rsbanano_node.Insertion.Reached.{Reached, start, inserted}
use rsbanano_node.Tests.Unfolded.{all_unfolded}
use rsbanano_node.Tests.Fixture.{constants, genesis, receive_details, send_details}

abbrev pub genesis_saved : SavedBlock
genesis_saved = record genesis {
  sideband = record (genesis.sideband) { details = receive_details };
}

abbrev pub ledger_genesis : Ledger
ledger_genesis = record {
  blocks = (99, genesis_saved) ∷ [];
  accounts =
      (
        10,
        record {
          head = 99;
          representative = 10;
          open_block = 99;
          balance = max_amount;
          modified = 3;
          block_count = 1;
          epoch = Epoch.epoch0;
        },
      )
      ∷ [];
  pending = [];
  pruned = [];
  pruned_count = 0;
  confirmation_height = (10, record { height = 1; frontier = 99 }) ∷ [];
  weights = record { store = (10, max_amount) ∷ []; weight_cache = []; min_weight = 0 };
  block_count = 0;
  account_count = 0;
  cemented_count = 0;
}

pub genesis_added : add_genesis_block constants 3 (new_store 0) ≡ some ledger_genesis
unfolding all_unfolded add_genesis_block
genesis_added = refl

abbrev pub first_send : Block
first_send = state (record {
  account = 10;
  previous = 99;
  representative = 10;
  balance = max_amount - 400;
  link = 20;
  signature = 10;
  work = 50;
  hash = 100;
})

abbrev pub first_saved : SavedBlock
first_saved = record {
  block = first_send;
  sideband = record {
    height = 2;
    timestamp = 4;
    successor = 0;
    account = 10;
    balance = max_amount - 400;
    details = send_details;
    source_epoch = Epoch.epoch0;
  };
}

abbrev pub ledger_first : Ledger
ledger_first = record ledger_genesis {
  blocks =
      (99, record genesis_saved { sideband = record (genesis_saved.sideband) { successor = 100 } })
      ∷ (100, first_saved)
      ∷ [];
  accounts =
      (
        10,
        record {
          head = 100;
          representative = 10;
          open_block = 99;
          balance = max_amount - 400;
          modified = 4;
          block_count = 2;
          epoch = Epoch.epoch0;
        },
      )
      ∷ [];
  pending =
      (
        record { receiving_account = 20; send_block_hash = 100 },
        record { source = 10; amount = 400; epoch = Epoch.epoch0 },
      )
      ∷ [];
  weights = record {
    store = (10, max_amount - 400) ∷ [];
    weight_cache = (10, max_amount - 400) ∷ [];
    min_weight = 0;
  };
  block_count = 1;
}

first_done : process constants 4 ledger_genesis first_send ≡ done (ledger_first, first_saved)
unfolding all_unfolded
first_done = refl

first_mints : minted (view constants 4 ledger_genesis first_send) ≡ 0
unfolding all_unfolded
first_mints = refl

first_count :
    map_or (view constants 4 ledger_genesis first_send).old_account_info 0 (λ i. i.block_count) + 1
    < u64_mod
unfolding all_unfolded
first_count = omega arith

pub first-Reached : Reached constants ledger_genesis ledger_first
first-Reached =
    inserted start 4 first_send first_saved (omega arith) (omega arith) first_mints first_count
      first_done
