-- ===== src/Tests/Runs.antt =====
-- What processing a block does to the small ledger.
use rsbanano_node.Prelude.{true, false, ◌≡◌, refl, [], ◌∷◌}
use rsbanano_node.Prelude.Table.{nat_eq}
use rsbanano_node.Core.Epoch.{Epoch}
use rsbanano_node.Core.Block.{Block, state}
use rsbanano_node.Core.Saved.{SavedBlock, pending_keys}
use rsbanano_node.Ledger.State.{Ledger}
use rsbanano_node.Tests.Unfolded.{all_unfolded}
use rsbanano_node.Validation.Balance.{minted}
use rsbanano_node.Insertion.View.{view}
use rsbanano_node.Insertion.Process.{process, done}
use rsbanano_node.Tests.Fixture.{
  minting, constants, ledger, info_10, opening, sending, receiving, receive_details,
}

abbrev pub received : SavedBlock
received = record {
  block = receiving;
  sideband = record {
    height = 1;
    timestamp = 7;
    successor = 0;
    account = 20;
    balance = 400;
    details = receive_details;
    source_epoch = Epoch.epoch0;
  };
}

-- The ledger once account 20 has been opened.
abbrev pub ledger_received : Ledger
ledger_received = record {
  blocks = (100, opening) ∷ (101, sending) ∷ (102, received) ∷ [];
  accounts =
      (10, info_10)
      ∷ (
        20,
        record {
          head = 102;
          representative = 30;
          open_block = 102;
          balance = 400;
          modified = 7;
          block_count = 1;
          epoch = Epoch.epoch0;
        },
      )
      ∷ [];
  pending = [];
  pruned = [];
  pruned_count = 0;
  confirmation_height = (10, record { height = 1; frontier = 100 }) ∷ [];
  weights = record {
    store = (10, 600) ∷ (30, 400) ∷ [];
    weight_cache = (10, 600) ∷ (30, 400) ∷ [];
    min_weight = 0;
  };
  block_count = 3;
  account_count = 2;
  cemented_count = 1;
}

pub receiving_done : process constants 7 ledger receiving ≡ done (ledger_received, received)
unfolding all_unfolded
receiving_done = refl

-- A second first block for account 20.
abbrev pub forking : Block
forking = state (record {
  account = 20;
  previous = 0;
  representative = 20;
  balance = 400;
  link = 101;
  signature = 20;
  work = 50;
  hash = 104;
})

-- The signer of epoch 1 upgrades account 10.
abbrev pub upgrading : Block
upgrading = state (record {
  account = 10;
  previous = 101;
  representative = 10;
  balance = 600;
  link = 1001;
  signature = 77;
  work = 50;
  hash = 105;
})

abbrev pub upgraded : SavedBlock
upgraded = record {
  block = upgrading;
  sideband = record {
    height = 3;
    timestamp = 7;
    successor = 0;
    account = 10;
    balance = 600;
    details = record { epoch = Epoch.epoch1; is_send = false; is_receive = false; is_epoch = true };
    source_epoch = Epoch.epoch0;
  };
}

abbrev pub ledger_upgraded : Ledger
ledger_upgraded = record ledger {
  blocks =
      (100, opening)
      ∷ (101, record sending { sideband = record (sending.sideband) { successor = 105 } })
      ∷ (105, upgraded)
      ∷ [];
  accounts =
      (10, record info_10 { head = 105; modified = 7; block_count = 3; epoch = Epoch.epoch1 }) ∷ [];
  block_count = 3;
}

pub upgrading_done : process constants 7 ledger upgrading ≡ done (ledger_upgraded, upgraded)
unfolding all_unfolded
upgrading_done = refl

-- A block with an epoch link that its owner signs raises the balance from 600 to 900, and the amount
-- that was on its way to account 20 still is.
minting_counts : minted (view constants 7 ledger minting) ≡ 300
unfolding all_unfolded
minting_counts = refl

abbrev minting_saved : SavedBlock
minting_saved = record {
  block = minting;
  sideband = record {
    height = 3;
    timestamp = 7;
    successor = 0;
    account = 10;
    balance = 900;
    details = record {
      epoch = Epoch.epoch0;
      is_send = false;
      is_receive = false;
      is_epoch = false;
    };
    source_epoch = Epoch.epoch0;
  };
}

minting_done :
    process constants 7 ledger minting
    ≡ done (
      record ledger {
        blocks =
            (100, opening)
            ∷ (101, record sending { sideband = record (sending.sideband) { successor = 103 } })
            ∷ (103, minting_saved)
            ∷ [];
        accounts =
            (10, record info_10 { head = 103; balance = 900; modified = 7; block_count = 3 }) ∷ [];
        weights = record { store = (10, 900) ∷ []; weight_cache = (10, 900) ∷ []; min_weight = 0 };
        block_count = 3;
      },
      minting_saved,
    )
unfolding all_unfolded
minting_done = refl
