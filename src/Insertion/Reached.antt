-- ===== src/Insertion/Reached.antt =====
-- The ledgers that insertions lead to from the genesis block on.
use rsbanano_node.Prelude.{ℕ, ◌+◌, ◌<◌, ◌≡◌, ◌≢◌, some, arith, map_or}
use rsbanano_node.Prelude.Table.{get, put, total, nat_eq}
use rsbanano_node.Prelude.Word.{u64_mod}
use rsbanano_node.Core.Amount.{Amount}
use rsbanano_node.Core.Block.{Block, OpenBlock, legacy_open, hash}
use rsbanano_node.Core.Saved.{SavedBlock, pending_keys, reload}
use rsbanano_node.Ledger.Blocks.{put_block, update_predecessor}
use rsbanano_node.Ledger.State.{Ledger, Constants, block_exists_or_pruned}
use rsbanano_node.Ledger.Genesis.{genesis_sideband, add_genesis_block, new_store, max_amount}
use rsbanano_node.Ledger.Valid.{IsValid, IsChained, supply}
use rsbanano_node.Validation.Balance.{minted}
use rsbanano_node.Insertion.Process.{process, done}
use rsbanano_node.Insertion.View.{InRange, view}
use rsbanano_node.Insertion.Supply.{supply-process}
use rsbanano_node.Insertion.Keeps.{process-IsValid}
use rsbanano_node.Insertion.Chained.{process-IsChained}

-- A ledger that a run of insertions leads to. Each block has a hash and a balance as the types of the
-- code have them, and mints nothing; no account comes to 2^64 blocks.
pub data Reached (c : Constants) (l0 : Ledger) : Ledger → Type 0 where
  start : Reached c l0 l0
  inserted :
      {l l' : Ledger}
      → Reached c l0 l
      → (now : ℕ) (b : Block) (s : SavedBlock) → hash b ≢ 0
      → InRange b
      → minted (view c now l b) ≡ 0
      → map_or (view c now l b).old_account_info 0 (λ i. i.block_count) + 1 < u64_mod
      → process c now l b ≡ done (l', s)
      → Reached c l0 l'

-- What a run of insertions keeps.
pub record IsSound (l : Ledger) : Type 0 where
  pub valid : IsValid l
  pub chained : IsChained l
  pub all_there : supply l ≡ max_amount

module _ (c : Constants) (start_time now : ℕ) (min_weight : Amount) (g : OpenBlock) (l : Ledger)
    (is : c.genesis_block
      ≡ record { block = legacy_open g; sideband = genesis_sideband g.account start_time })
    (own : c.genesis_account ≡ g.account) (ne : g.hash ≢ 0)
    (h : add_genesis_block c now (new_store min_weight) ≡ some l) where
  genesis-IsSound : IsSound l
  unfolding add_genesis_block put_block update_predecessor get put total reload
      block_exists_or_pruned
  genesis-IsSound = record {
    valid = record {
      heads = λ a info e. record {
        block = reload c.genesis_block;
        found = ground (arith, is, own);
        nonzero = ground (arith, is, own);
        balance = ground (arith, is, own);
        epoch = ground (arith, is, own);
        count = ground (arith, is, own);
        account = ground (arith, is, own);
      };
      sources = λ key e. ground arith;
      stored = λ j s e. ground (arith, is, own);
      accounts_unique = ground (arith, is, own);
      pending_unique = ground arith;
      bounded = ground (arith, is, own);
    };
    chained = record {
      falls = λ j s p e f. ground (arith, is, own);
      known = λ j s e n. ground (arith, is, own);
      no_zero = ground (arith, is, own);
      unique = ground (arith, is, own);
      tips = λ a info x e f. ground (arith, is, own);
    };
    all_there = ground (arith, is, own);
  }

inserted-IsSound : (c : Constants) (l0 l : Ledger) → IsSound l0 → Reached c l0 l → IsSound l
inserted-IsSound c l0 l k start = k
inserted-IsSound c l0 l k (inserted {l = l1} before now b s ne r z o h) =
    let i = inserted-IsSound c l0 l1 k before in
    record {
      valid = process-IsValid c now l1 l b s i.valid ne r z h;
      chained = process-IsChained c now l1 l b s i.valid i.chained ne r o h;
      all_there = ground (arith, supply-process c now l1 l b s i.valid ne r h, i.all_there);
    }

-- Every ledger that insertions lead to from a new store with the genesis block, as long as no
-- block mints, is valid and chained, and its money supply is the 2^128 - 1 raw of the genesis
-- block. The genesis block is an open block with the genesis sideband, for the genesis account;
-- the hash of no block is zero, balances are within 128 bits, and no account comes to 2^64 blocks.
pub Reached-IsSound :
    (c : Constants) (start_time now : ℕ) (min_weight : Amount) (g : OpenBlock) (l0 l : Ledger)
    → c.genesis_block
      ≡ record { block = legacy_open g; sideband = genesis_sideband g.account start_time }
    → c.genesis_account ≡ g.account
    → g.hash ≢ 0
    → add_genesis_block c now (new_store min_weight) ≡ some l0
    → Reached c l0 l
    → IsSound l
Reached-IsSound c start_time now min_weight g l0 l is own ne h x =
    inserted-IsSound c l0 l (genesis-IsSound c start_time now min_weight g l0 is own ne h) x
