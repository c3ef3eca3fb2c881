-- ===== src/Cementing/Pruning.antt =====
-- ledger/src/ledger.rs: `pruning_action`, which moves confirmed blocks out of the block table, and
-- the reads of the confirmed set (ledger/src/ledger_set_confirmed.rs). A commit in between changes
-- nothing that the loop reads.
use rsbanano_node.Prelude.{
  ℕ, zero, suc, Bool, true, false, not, ◌&&◌, ◌||◌, Option, none, some, List, ◌∷◌, ◌≡◌, refl, sym,
  ◌∙◌, ◌==◌, if◌then◌else◌, is_some, Bool-cases, inl, inr, arith, ==_iff,
}
use mathlib.Core.Path.{subst}
use rsbanano_node.Prelude.Table.{get, erase, nat_eq, get-erase_ne}
use rsbanano_node.Prelude.Word.{add_u64}
use rsbanano_node.Prelude.Check.{Result, ok, err}
use rsbanano_node.Prelude.Partial.{◌>>=◌}
use rsbanano_node.Core.Types.{Account, BlockHash, is_zero}
use rsbanano_node.Core.Amount.{Amount}
use rsbanano_node.Core.Block.{hash, previous}
use rsbanano_node.Core.Saved.{saved_balance, height}
use rsbanano_node.Ledger.State.{
  Ledger, Constants, contains, block_exists_or_pruned, confirmed_block, confirmed_exists_or_pruned,
}
use rsbanano_node.Cementing.Cementer.{Stop, panicked, endless}

-- A read whose `expect` fails is `none`.
unfoldable pub confirmed_head : Ledger → Account → Option BlockHash
confirmed_head l account = get account l.confirmation_height >>= λ info. some info.frontier

unfoldable pub confirmed_height : Ledger → Account → Option ℕ
confirmed_height l account = elim (confirmed_head l account) [
  | none ↦ some 0
  | some head ↦ confirmed_block l head >>= λ b. some (height b)
]

unfoldable pub confirmed_block_balance : Ledger → BlockHash → Option Amount
confirmed_block_balance l h =
    if is_zero h then none else confirmed_block l h >>= λ b. some (saved_balance b)

unfoldable pub confirmed_exists : Ledger → BlockHash → Bool
confirmed_exists l h = is_some (confirmed_block l h)

unfoldable pub confirmed_balance : Ledger → Account → Option Amount
confirmed_balance l account =
    confirmed_head l account >>= λ head. confirmed_block l head >>= λ b. some (saved_balance b)

-- A put into the table of pruned hashes.
abbrev pub put_pruned : BlockHash → List BlockHash → List BlockHash
put_pruned h hs = if contains h hs then hs else h ∷ hs

unfoldable pub prune_block : Ledger → BlockHash → Ledger
prune_block l h = record l {
  blocks = erase h l.blocks;
  pruned = put_pruned h l.pruned;
  pruned_count = add_u64 l.pruned_count 1;
}

unfoldable pub prune_loop : BlockHash → ℕ → ℕ → Ledger → BlockHash → ℕ → Result Stop (Ledger × ℕ)
prune_loop genesis_hash batch_size zero l h pruned_count = err endless
prune_loop genesis_hash batch_size (suc fuel) l h pruned_count =
    elim (is_zero h || (h == genesis_hash)) [
      | true ↦ ok (l, pruned_count)
      | false ↦ elim (get h l.blocks) [
        | some block ↦ elim (confirmed_exists_or_pruned l h && not (batch_size == 0)) [
          | false ↦ err panicked
          | true ↦
              prune_loop genesis_hash batch_size fuel (prune_block l h) (previous block.block)
                (add_u64 pruned_count 1)
        ]
        | none ↦ if contains h l.pruned then ok (l, pruned_count) else err panicked
      ]
    ]

unfoldable pub pruning_action : Constants → ℕ → Ledger → BlockHash → ℕ → Result Stop (Ledger × ℕ)
pruning_action c fuel l h batch_size = prune_loop (hash c.genesis_block.block) batch_size fuel l h 0

pub contains-put_pruned :
    (h j : BlockHash) (hs : List BlockHash)
    → contains j (put_pruned h hs) ≡ ((h == j) || contains j hs)
contains-put_pruned h j hs = elim (Bool-cases (contains h hs)) [
  | inr b ↦ ground (arith, b)
  | inl b ↦ elim (Bool-cases (h == j)) [
    | inl e ↦ rw (b, e) (subst (λ z. contains z hs ≡ true) ((==_iff h j).0 e) b)
    | inr e ↦ rw (b, e) refl
  ]
]

pub exists-prune_block :
    (l : Ledger) (h j : BlockHash)
    → is_some (get h l.blocks) ≡ true
    → block_exists_or_pruned (prune_block l h) j ≡ block_exists_or_pruned l j
unfolding block_exists_or_pruned prune_block
exists-prune_block l h j found =
    let put = contains-put_pruned h j l.pruned in
    elim (Bool-cases (h == j)) [
      | inl b ↦ ground (arith, found, b, put, ==_iff h j)
      | inr b ↦ ground (arith, b, put, get-erase_ne h j l.blocks, ==_iff h j)
    ]

pub confirmed-prune_block :
    (l : Ledger) (h j : BlockHash)
    → confirmed_exists_or_pruned l h ≡ true
    → confirmed_exists_or_pruned (prune_block l h) j ≡ confirmed_exists_or_pruned l j
unfolding confirmed_exists_or_pruned confirmed_block prune_block
confirmed-prune_block l h j sure =
    let put = contains-put_pruned h j l.pruned in
    elim (Bool-cases (h == j)) [
      | inl b ↦
          subst
            (λ z. confirmed_exists_or_pruned (prune_block l h) z ≡ confirmed_exists_or_pruned l z)
            ((==_iff h j).0 b) (pruned_now l h ∙ sym sure)
      | inr b ↦ ground (arith, b, put, get-erase_ne h j l.blocks, ==_iff h j)
    ]
  where
    pruned_now :
        (m : Ledger) (k : BlockHash) → confirmed_exists_or_pruned (prune_block m k) k ≡ true
    pruned_now m k = ground (arith, contains-put_pruned k k m.pruned)
