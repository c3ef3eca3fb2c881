-- ===== src/Tests/Fixture.antt =====
-- Account 10 was opened with 1000 raw and has sent 400 of them to account 20, which may receive
-- them. A key signs by its own number, and the work of a block is its difficulty.
use rsbanano_node.Prelude.{true, false, ◌==◌, [], ◌∷◌}
use rsbanano_node.Prelude.Table.{nat_eq}
use rsbanano_node.Core.Epoch.{Epoch, Epochs}
use rsbanano_node.Core.Details.{BlockDetails}
use rsbanano_node.Core.Block.{legacy_open, Block, state}
use rsbanano_node.Core.Saved.{SavedBlock, AccountInfo, PendingKey, pending_keys}
use rsbanano_node.Ledger.Genesis.{genesis_sideband}
use rsbanano_node.Ledger.State.{Ledger, Constants}

abbrev pub epochs : Epochs
epochs =
    (Epoch.epoch1, record { signer = 77; link = 1001 })
    ∷ (Epoch.epoch2, record { signer = 78; link = 1002 })
    ∷ []

abbrev pub send_details : BlockDetails
send_details = record { epoch = Epoch.epoch0; is_send = true; is_receive = false; is_epoch = false }

abbrev pub receive_details : BlockDetails
receive_details = record {
  epoch = Epoch.epoch0;
  is_send = false;
  is_receive = true;
  is_epoch = false;
}

abbrev pub opening : SavedBlock
opening = record {
  block = state (record {
    account = 10;
    previous = 0;
    representative = 10;
    balance = 1000;
    link = 5;
    signature = 10;
    work = 50;
    hash = 100;
  });
  sideband = record {
    height = 1;
    timestamp = 0;
    successor = 101;
    account = 10;
    balance = 1000;
    details = receive_details;
    source_epoch = Epoch.epoch0;
  };
}

-- The first block of the network, an open block that has all there is.
abbrev pub genesis : SavedBlock
genesis = record {
  block = legacy_open (record {
    source = 10;
    representative = 10;
    account = 10;
    signature = 10;
    work = 50;
    hash = 99;
  });
  sideband = genesis_sideband 10 0;
}

abbrev pub constants : Constants
constants = record {
  epochs = epochs;
  work = record {
    epoch_1 = 30;
    epoch_2 = 40;
    epoch_2_receive = 20;
    base = 40;
    entry = 20;
    get_difficulty = λ root work. work;
  };
  genesis_block = genesis;
  genesis_account = 10;
  verify = λ key message signature. key == signature;
}

abbrev pub sending : SavedBlock
sending = record {
  block = state (record {
    account = 10;
    previous = 100;
    representative = 10;
    balance = 600;
    link = 20;
    signature = 10;
    work = 50;
    hash = 101;
  });
  sideband = record {
    height = 2;
    timestamp = 0;
    successor = 0;
    account = 10;
    balance = 600;
    details = send_details;
    source_epoch = Epoch.epoch0;
  };
}

abbrev pub info_10 : AccountInfo
info_10 = record {
  head = 101;
  representative = 10;
  open_block = 100;
  balance = 600;
  modified = 0;
  block_count = 2;
  epoch = Epoch.epoch0;
}

abbrev pub key_20 : PendingKey
key_20 = record { receiving_account = 20; send_block_hash = 101 }

abbrev pub ledger : Ledger
ledger = record {
  blocks = (100, opening) ∷ (101, sending) ∷ [];
  accounts = (10, info_10) ∷ [];
  pending = (key_20, record { source = 10; amount = 400; epoch = Epoch.epoch0 }) ∷ [];
  pruned = [];
  pruned_count = 0;
  confirmation_height = (10, record { height = 1; frontier = 100 }) ∷ [];
  weights = record { store = (10, 600) ∷ []; weight_cache = (10, 600) ∷ []; min_weight = 0 };
  block_count = 2;
  account_count = 1;
  cemented_count = 1;
}

-- Account 20 receives what was sent to it.
abbrev pub receiving : Block
receiving = state (record {
  account = 20;
  previous = 0;
  representative = 30;
  balance = 400;
  link = 101;
  signature = 20;
  work = 50;
  hash = 102;
})

-- Account 10 makes up 300 raw with an epoch link.
abbrev pub minting : Block
minting = state (record {
  account = 10;
  previous = 101;
  representative = 10;
  balance = 900;
  link = 1001;
  signature = 10;
  work = 50;
  hash = 103;
})
