-- ===== src/Insertion/Chained.antt =====
-- The chain of blocks under an insertion.
use rsbanano_node.Prelude.{
  ℕ, ◌+◌, ◌<◌, ◌≡◌, ◌≢◌, ◌==◌, true, false, none, some, arith, Option-cases, Bool-cases, inl, inr,
  map_or, ◌⊎◌, ==_iff,
}
use rsbanano_node.Prelude.Word.{u64_mod}
use rsbanano_node.Prelude.Table.{get, nat_eq}
use rsbanano_node.Core.Types.{Account, BlockHash}
use rsbanano_node.Insertion.After.{accounts_after_self, accounts_after-other}
use rsbanano_node.Core.Block.{Block, hash, previous}
use rsbanano_node.Core.Saved.{AccountInfo, SavedBlock, height, pending_keys}
use rsbanano_node.Ledger.Blocks.Laws.{touched, get-put_block_ne, put_block-IsUnique}
use rsbanano_node.Ledger.State.{Ledger, Constants, block_exists_or_pruned}
use rsbanano_node.Ledger.Valid.{IsValid, IsChained}
use rsbanano_node.Validation.Helpers.{
  new_account_info, BlockValidator, new_sideband, new_block_count,
}
use rsbanano_node.Validation.Validate.{create_instructions}
use rsbanano_node.Validation.Accepted.{previous-head, previous-new}
use rsbanano_node.Insertion.Factory.{create_validator, load_previous_block}
use rsbanano_node.Insertion.Process.{process, done}
use rsbanano_node.Insertion.View.{InRange, view}
use rsbanano_node.Insertion.Supply.{fresh_hash}
use rsbanano_node.Insertion.Total.{previous_found}
use rsbanano_node.Insertion.Keeps.{
  not_there, written, old_found, not_own_previous, block_is, exists_still, get-process,
}

module _ (c : Constants) (now : ℕ) (l l' : Ledger) (b : Block) (s : SavedBlock) (k : IsValid l)
    (ne : hash b ≢ 0) (r : InRange b) (h : process c now l b ≡ done (l', s)) where
  abbrev v : BlockValidator
  v = view c now l b

  -- A block of the new table is the new one, or an old one with another successor.
  new_or_old :
      (j : BlockHash) (x : SavedBlock)
      → get j l'.blocks ≡ some x
      → ((hash b ≡ j) × (x ≡ s))
        ⊎ ((y : SavedBlock) × (get j l.blocks ≡ some y) × (x ≡ touched s j y))
  new_or_old j x e = elim (Bool-cases (hash b == j)) [
    | inl q ↦ inl ((==_iff (hash b) j).0 q, ground (arith, get-process c now l l' b s k ne r h))
    | inr q ↦ elim (Option-cases (get j l.blocks)) [
      | inl z ↦ ground (
        arith,
        block_is c now l l' b s k ne r h,
        get-put_block_ne l.blocks l'.blocks s j
            (λ w. ground (arith, block_is c now l l' b s k ne r h))
            (written c now l l' b s k ne r h).blocks,
      )
      | inr (y, z) ↦ inr (y, z, ground (arith, old_found c now l l' b s k ne r h j y z))
    ]
  ]

  -- The block before the new one is lower.
  new_falls :
      map_or v.old_account_info 0 (λ i. i.block_count) + 1 < u64_mod
      → (p : SavedBlock) → get (previous b) l.blocks ≡ some p
      → get 0 l.blocks ≡ none
      → height p < height s
  unfolding create_validator create_instructions new_sideband new_block_count
  new_falls o p e z =
      let w = written c now l l' b s k ne r h in
      elim (Option-cases v.old_account_info) [
        | inl q ↦ ground (arith, previous-new v w.accepted.previous_correct q)
        | inr (i, q) ↦
            let d = k.heads v.account i q in
            ground
              (arith, previous-head v i w.accepted.previous_correct q, d.found, d.count, w.saved)
      ]

  -- The new block is new in the old table, and its previous block is there.
  not_stored : block_exists_or_pruned l (hash b) ≡ false
  unfolding create_validator
  not_stored = fresh_hash v (written c now l l' b s k ne r h).accepted.is_new

  previous_stored : previous b ≢ 0 → block_exists_or_pruned l (previous b) ≡ true
  unfolding create_validator load_previous_block block_exists_or_pruned
  previous_stored z =
      ground (arith, previous_found v (written c now l l' b s k ne r h).accepted.predecessor)

  -- The head of another account is not the block before the new one.
  not_head :
      (a : Account) (info : AccountInfo) (y : SavedBlock)
      → get a l.accounts ≡ some info
      → get info.head l.blocks ≡ some y
      → v.account ≢ a
      → touched s info.head y ≡ y
  unfolding create_validator
  not_head a info y e f other =
      let w = written c now l l' b s k ne r h in
      let d = k.heads a info e in
      elim (Option-cases v.old_account_info) [
        | inl q ↦
            ground (
              arith,
              block_is c now l l' b s k ne r h,
              previous-new v w.accepted.previous_correct q,
            )
        | inr (i, q) ↦
            let d2 = k.heads v.account i q in
            ground (
              arith,
              block_is c now l l' b s k ne r h,
              previous-head v i w.accepted.previous_correct q,
              d.found,
              d.account,
              d2.found,
              d2.account,
            )
      ]

  module _ (chain : IsChained l)
      (o : map_or v.old_account_info 0 (λ i. i.block_count) + 1 < u64_mod) where
    falls_kept :
        (j : BlockHash) (x p : SavedBlock)
        → get j l'.blocks ≡ some x
        → get (previous x.block) l'.blocks ≡ some p
        → height p < height x
    falls_kept j x p e f =
        let own = block_is c now l l' b s k ne r h in
        elim (new_or_old j x e) [
          | inl (q, z) ↦ elim (new_or_old (previous x.block) p f) [
            | inl (q2, z2) ↦ ground (arith, own, not_own_previous c now l l' b s k ne r h)
            | inr (y, q2, z2) ↦ ground (arith, own, new_falls o y, chain.no_zero)
          ]
          | inr (y, q, z) ↦ elim (new_or_old (previous x.block) p f) [
            | inl (q2, z2) ↦ ground (arith, chain.known j y q, not_stored)
            | inr (y2, q2, z2) ↦ ground (arith, chain.falls j y y2 q)
          ]
        ]

    known_kept :
        (j : BlockHash) (x : SavedBlock)
        → get j l'.blocks ≡ some x
        → previous x.block ≢ 0
        → block_exists_or_pruned l' (previous x.block) ≡ true
    known_kept j x e nz =
        let own = block_is c now l l' b s k ne r h in
        elim (new_or_old j x e) [
          | inl (q, z) ↦
              ground
                (arith, own, previous_stored, exists_still c now l l' b s k ne r h (previous b))
          | inr (y, q, z) ↦
              ground
                (arith, chain.known j y q, exists_still c now l l' b s k ne r h (previous x.block))
        ]

    zero_free : get 0 l'.blocks ≡ none
    zero_free = elim (Option-cases (get 0 l'.blocks)) [
      | inl q ↦ q
      | inr (x, q) ↦ elim (new_or_old 0 x q) [
        | inl (z, w) ↦ ground arith
        | inr (y, z, w) ↦ ground (arith, chain.no_zero)
      ]
    ]

    tips_kept :
        (a : Account) (info : AccountInfo) (x : SavedBlock)
        → get a l'.accounts ≡ some info
        → get info.head l'.blocks ≡ some x
        → x.sideband.successor ≡ 0
    unfolding create_validator new_account_info create_instructions new_sideband
    tips_kept a info x e f =
        let w = written c now l l' b s k ne r h in
        elim (Bool-cases (v.account == a)) [
          | inl q ↦
              let same : v.account ≡ a = (==_iff v.account a).0 q in
              ground (
                arith,
                same,
                accounts_after_self v l.accounts,
                w.accounts,
                w.saved,
                get-process c now l l' b s k ne r h,
              )
          | inr q ↦
              let other : v.account ≢ a = λ y. ground (arith, (==_iff v.account a).1 y) in
              let before : get a l.accounts ≡ some info =
                ground (arith, accounts_after-other v l.accounts a other, w.accounts) in
              let d = k.heads a info before in
              elim (new_or_old info.head x f) [
                | inl (y, z) ↦ ground (arith, d.found, not_there c now l l' b s k ne r h)
                | inr (y, y_found, z) ↦ ground (
                  arith,
                  z,
                  chain.tips a info y before y_found,
                  not_head a info y before y_found other,
                )
              ]
        ]

-- A valid ledger that is chained (blocks stand once and above their previous ones, which are
-- stored or pruned, none has the hash 0, and the heads of accounts have no successor) is still
-- chained after a block is accepted, if the account's count of blocks is within 64 bits then. The
-- block's hash is not zero, and its balance is within 128 bits.
pub process-IsChained :
    (c : Constants) (now : ℕ) (l l' : Ledger) (b : Block) (s : SavedBlock)
    → IsValid l
    → IsChained l
    → hash b ≢ 0
    → InRange b
    → map_or (view c now l b).old_account_info 0 (λ i. i.block_count) + 1 < u64_mod
    → process c now l b ≡ done (l', s)
    → IsChained l'
process-IsChained c now l l' b s k chain ne r o h = record {
  falls = falls_kept c now l l' b s k ne r h chain o;
  known = known_kept c now l l' b s k ne r h chain o;
  no_zero = zero_free c now l l' b s k ne r h chain o;
  unique =
      put_block-IsUnique l.blocks l'.blocks s chain.unique (written c now l l' b s k ne r h).blocks;
  tips = tips_kept c now l l' b s k ne r h chain o;
}
