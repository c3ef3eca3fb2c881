-- ===== src/Insertion/Keeps.antt =====
-- The invariant of the ledger under an insertion.
use rsbanano_node.Prelude.{
  ℕ, ◌≡◌, ◌≢◌, true, none, some, arith, is_some, Option-cases, Bool-cases, inl, inr, ◌==◌, ==_iff,
}
use mathlib.Core.Path.{subst₂}
use rsbanano_node.Prelude.Table.{IsUnique, get, nat_eq, get-put}
use rsbanano_node.Core.Types.{Account, BlockHash}
use rsbanano_node.Core.Block.{Block, hash, previous}
use rsbanano_node.Core.Saved.{
  SavedBlock, AccountInfo, PendingKey, pending_keys, pending_key_eq, pending_key_eq_iff, reload,
  reload-reload, block-reload,
}
use rsbanano_node.Ledger.Blocks.Laws.{
  touched, get-put_block_self, get-put_block_ne, reload-with_successor,
}
use rsbanano_node.Ledger.State.{Ledger, Constants, block_exists_or_pruned}
use rsbanano_node.Ledger.Valid.{IsValid, Head}
use rsbanano_node.Validation.Helpers.{
  BlockValidator, new_account_info, new_pending_info, new_sideband, block_details,
}
use rsbanano_node.Validation.Validate.{create_instructions}
use rsbanano_node.Validation.Balance.{minted}
use rsbanano_node.Insertion.Factory.{create_validator, load_previous_block}
use rsbanano_node.Insertion.Process.{process, done}
use rsbanano_node.Insertion.Inverse.{pending_taken, Written, process-Written}
use rsbanano_node.Insertion.After.{
  accounts_after-IsUnique, accounts_after-other, accounts_after_self, pending_after-IsUnique,
}
use rsbanano_node.Insertion.Supply.{supply-process, offered-hash, fresh_hash, pending_taken-none}
use rsbanano_node.Insertion.Total.{previous_found}
use rsbanano_node.Insertion.Stored.{accepted-Stored}
use rsbanano_node.Insertion.Loaded.{view-Loaded}
use rsbanano_node.Insertion.View.{InRange, view}

module _ (c : Constants) (now : ℕ) (l l' : Ledger) (b : Block) (s : SavedBlock) (k : IsValid l)
    (ne : hash b ≢ 0) (r : InRange b) (h : process c now l b ≡ done (l', s)) where
  abbrev v : BlockValidator
  v = view c now l b

  pub written : Written v l l' s
  written = process-Written c now l l' b s ne h

  pub not_there : get (hash b) l.blocks ≡ none
  unfolding create_validator block_exists_or_pruned
  not_there = ground (arith, fresh_hash v written.accepted.is_new)

  pub not_own_previous : previous b ≢ hash b
  unfolding create_validator load_previous_block
  not_own_previous q = ground (arith, previous_found v written.accepted.predecessor, not_there)

  pub block_is : s.block ≡ b
  unfolding create_validator
  block_is = ground (arith, written.saved)

  pub new_found : get (hash b) l'.blocks ≡ some (reload s)
  new_found =
      rw (← block_is)
        (get-put_block_self l.blocks l'.blocks s (rw block_is not_own_previous) written.blocks)

  pub old_found :
      (j : BlockHash) (x : SavedBlock)
      → get j l.blocks ≡ some x
      → get j l'.blocks ≡ some (touched s j x)
  old_found j x e = ground (
    arith,
    get-put_block_ne l.blocks l'.blocks s j (λ q. ground (arith, block_is, not_there))
        written.blocks,
  )

  pub exists_still :
      (j : BlockHash) → block_exists_or_pruned l j ≡ true → block_exists_or_pruned l' j ≡ true
  unfolding block_exists_or_pruned
  exists_still j e = elim (Option-cases (get j l.blocks)) [
    | inl q ↦ ground (arith, written.pruned)
    | inr (x, q) ↦ ground (arith, written.pruned, old_found j x q)
  ]

  still_pending :
      (key : PendingKey)
      → is_some (get key (pending_taken v l.pending)) ≡ true
      → is_some (get key l.pending) ≡ true
  still_pending key e = elim (Option-cases (get key l.pending)) [
    | inl q ↦ ground (arith, pending_taken-none v key l.pending q)
    | inr (p, q) ↦ ground arith
  ]

  pub hash_exists : block_exists_or_pruned l' (hash b) ≡ true
  unfolding block_exists_or_pruned
  hash_exists = ground (arith, new_found)

  sources_kept :
      (key : PendingKey)
      → is_some (get key l'.pending) ≡ true
      → block_exists_or_pruned l' key.send_block_hash ≡ true
  unfolding create_validator
  sources_kept key e = elim (Option-cases (new_pending_info v)) [
    | inl q ↦
        exists_still key.send_block_hash
          (k.sources key (still_pending key (ground (arith, written.pending))))
    | inr ((new_key, p), q) ↦ elim (Bool-cases (pending_key_eq new_key key)) [
      | inl same ↦
          ground (arith, pending_key_eq_iff new_key key, offered-hash v new_key p q, hash_exists)
      | inr other ↦ exists_still key.send_block_hash (
          k.sources key (
            still_pending key
              (ground (arith, written.pending, get-put new_key key p (pending_taken v l.pending)))))
    ]
  ]

  stored_kept :
      (j : BlockHash) (x : SavedBlock)
      → get j l'.blocks ≡ some x
      → (hash x.block ≡ j) × (reload x ≡ x)
  stored_kept j x e = elim (Bool-cases (hash b == j)) [
    | inl q ↦ ground (arith, new_found, block_is, reload-reload s, block-reload s)
    | inr q ↦ elim (Option-cases (get j l.blocks)) [
      | inl o ↦ ground (
        arith,
        get-put_block_ne l.blocks l'.blocks s j (λ z. ground (arith, block_is)) written.blocks,
      )
      | inr (y, o) ↦
          ground (arith, old_found j y o, k.stored j y o, reload-with_successor (hash s.block) y)
    ]
  ]

  Head-kept : (a : Account) (info : AccountInfo) → Head l a info → Head l' a info
  Head-kept a info d = record {
    block = touched s info.head d.block;
    found = old_found info.head d.block d.found;
    nonzero = d.nonzero;
    balance = ground (arith, d.balance);
    epoch = ground (arith, d.epoch);
    count = ground (arith, d.count);
    account = ground (arith, d.account);
  }

  Head-new : Head l' v.account (new_account_info v)
  unfolding create_validator new_account_info create_instructions new_sideband block_details
  Head-new =
      let st = accepted-Stored v written.accepted (view-Loaded c now l b k r written.accepted) in
      record {
        block = s;
        found = ground (arith, new_found, st.0, written.saved);
        nonzero = ne;
        balance = ground (arith, st.1, written.saved);
        epoch = ground (arith, written.saved);
        count = ground (arith, written.saved);
        account =
            ground (arith, (view-Loaded c now l b k r written.accepted).account, written.saved);
      }

  heads_kept : (a : Account) (info : AccountInfo) → get a l'.accounts ≡ some info → Head l' a info
  heads_kept a info e = elim (Bool-cases (v.account == a)) [
    | inl same ↦
        let here : v.account ≡ a = (==_iff v.account a).0 same in
        let eq : new_account_info v ≡ info =
          ground (arith, accounts_after_self v l.accounts, written.accounts) in
        subst₂ (Head l') here eq Head-new
    | inr other ↦ Head-kept a info (
        k.heads a info (
          ground
            (arith, accounts_after-other v l.accounts a (λ q. ground arith), written.accounts)))
  ]

  accounts-IsUnique_kept : IsUnique l'.accounts
  accounts-IsUnique_kept =
      rw written.accounts (accounts_after-IsUnique v l.accounts k.accounts_unique)

  pending-IsUnique_kept : IsUnique l'.pending
  pending-IsUnique_kept = rw written.pending (pending_after-IsUnique v l.pending k.pending_unique)

-- An accepted block that mints nothing leaves a valid ledger behind: every account agrees with its
-- head block, every receivable entry has its send block, and the supply is within 128 bits. The
-- block's hash is not zero, and its balance is within 128 bits. The ledger before is valid.
pub process-IsValid :
    (c : Constants) (now : ℕ) (l l' : Ledger) (b : Block) (s : SavedBlock)
    → IsValid l
    → hash b ≢ 0
    → InRange b
    → minted (view c now l b) ≡ 0
    → process c now l b ≡ done (l', s)
    → IsValid l'
process-IsValid c now l l' b s k ne r m h = record {
  heads = heads_kept c now l l' b s k ne r h;
  sources = sources_kept c now l l' b s k ne r h;
  stored = stored_kept c now l l' b s k ne r h;
  accounts_unique = accounts-IsUnique_kept c now l l' b s k ne r h;
  pending_unique = pending-IsUnique_kept c now l l' b s k ne r h;
  bounded = omega (arith, supply-process c now l l' b s k ne r h, k.bounded);
}

-- What `process` returns is what the ledger then gives back for the block's hash. The block's hash
-- is not zero, and its balance is within 128 bits.
pub get-process :
    (c : Constants) (now : ℕ) (l l' : Ledger) (b : Block) (s : SavedBlock)
    → IsValid l
    → hash b ≢ 0
    → InRange b
    → process c now l b ≡ done (l', s)
    → get (hash b) l'.blocks ≡ some s
unfolding create_validator
get-process c now l l' b s k ne r h =
    let w = written c now l l' b s k ne r h in
    ground (
      arith,
      new_found c now l l' b s k ne r h,
      accepted-Stored (view c now l b) w.accepted (view-Loaded c now l b k r w.accepted),
      w.saved,
    )
