-- ===== src/Tests/Facts.antt =====
-- The small ledger is valid, its blocks form chains, its weights match its accounts, and its blocks stand under their hashes.
use mathlib.Core.Path.{subst₂}
use rsbanano_node.Prelude.{true, is_some, ℕ, ◌≡◌, refl, some, arith}
use rsbanano_node.Prelude.Table.{get, nat_eq, total}
use rsbanano_node.Core.Block.{hash}
use rsbanano_node.Core.Saved.{SavedBlock, AccountInfo, PendingKey, pending_keys, reload}
use rsbanano_node.Ledger.State.{block_exists_or_pruned}
use rsbanano_node.Ledger.Valid.{IsValid, IsChained, Head}
use rsbanano_node.Insertion.Weights.{WeightsMatch}
use rsbanano_node.Rollback.Steps.{IsKeyed}
use rsbanano_node.Tests.Fixture.{ledger, info_10, sending}

Head-10 : Head ledger 10 info_10
unfolding get
Head-10 = record {
  block = sending;
  found = refl;
  nonzero = omega arith;
  balance = refl;
  epoch = refl;
  count = refl;
  account = refl;
}

only_10 :
    (a : ℕ) (info : AccountInfo) → get a ledger.accounts ≡ some info → (10 ≡ a) × (info_10 ≡ info)
unfolding get
only_10 a info e = ground arith

only_stored :
    (h : ℕ) (s : SavedBlock) → get h ledger.blocks ≡ some s → (hash s.block ≡ h) × (reload s ≡ s)
unfolding get reload
only_stored h s e = ground arith

only_sources :
    (key : PendingKey)
    → is_some (get key ledger.pending) ≡ true
    → block_exists_or_pruned ledger key.send_block_hash ≡ true
unfolding get block_exists_or_pruned
only_sources key e = ground arith

pub ledger-IsValid : IsValid ledger
unfolding total get
ledger-IsValid = record {
  heads = λ a info e. let (p, q) = only_10 a info e in subst₂ (Head ledger) p q Head-10;
  sources = only_sources;
  stored = only_stored;
  accounts_unique = (refl, tt);
  pending_unique = (refl, tt);
  bounded = omega arith;
}

pub ledger-WeightsMatch : WeightsMatch ledger
unfolding total get
ledger-WeightsMatch = record {
  consistent = record {
    store_unique = (refl, tt);
    cache_unique = (refl, tt);
    in_range = λ r. ground arith;
    cached = λ r. ground arith;
  };
  matched = λ r. ground arith;
}

pub blocks-IsKeyed : IsKeyed ledger.blocks
unfolding get
blocks-IsKeyed = record { unique = (refl, (refl, tt)); keyed = λ h s e. (only_stored h s e).0 }

pub ledger-IsChained : IsChained ledger
unfolding get block_exists_or_pruned
ledger-IsChained = record {
  falls = λ j x p e f. ground arith;
  known = λ j x e n. ground arith;
  no_zero = refl;
  unique = (refl, (refl, tt));
  tips = λ a info x e f. ground arith;
}

pub sending_found : get (hash sending.block) ledger.blocks ≡ some sending
unfolding get
sending_found = refl
