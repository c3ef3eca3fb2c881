-- ===== src/Cementing/Line.antt =====
-- ledger/src/ledger.rs: the blocks that a run of `pruning_action` takes, and what it leaves.
use mathlib.Core.Path.{subst}
use rsbanano_node.Prelude.{
  ℕ, true, false, ◌||◌, ◌+◌, ◌<◌, none, some, List, [], ◌∷◌, ◌%◌, if◌then◌else◌, ◌≡◌, ◌≢◌, refl,
  sym, ◌∙◌, ap, ◌==◌, Bool-cases, inl, inr, arith, ==_iff,
}
use rsbanano_node.Prelude.Table.{
  get, erase, nat_eq, get-erase_ne, get-erase_self, IsUnique, erase-IsUnique,
}
use rsbanano_node.Core.Types.{BlockHash, is_zero}
use rsbanano_node.Core.Block.{previous}
use rsbanano_node.Core.Saved.{SavedBlock, height}
use rsbanano_node.Ledger.State.{
  Ledger, contains, confirmed_exists_or_pruned, block_exists_or_pruned,
}
use rsbanano_node.Cementing.Pruning.{prune_block, confirmed-prune_block}
use rsbanano_node.Prelude.Word.{add_u64, u64_mod}
use rsbanano_node.Prelude.Lists.{length}
use rsbanano_node.Cementing.Pruning.{contains-put_pruned, exists-prune_block}

-- Blocks stand once and above their previous ones, and what a confirmed block follows is confirmed.
pub record IsPrunable (l : Ledger) : Type 0 where
  pub falls :
      (j : BlockHash) (s p : SavedBlock)
      → get j l.blocks ≡ some s
      → get (previous s.block) l.blocks ≡ some p
      → height p < height s
  pub follows :
      (j : BlockHash) (s : SavedBlock)
      → get j l.blocks ≡ some s
      → confirmed_exists_or_pruned l j ≡ true
      → previous s.block ≢ 0
      → confirmed_exists_or_pruned l (previous s.block) ≡ true
  pub unique : IsUnique l.blocks

pub get-prune_block :
    (l : Ledger) (h j : BlockHash) (s : SavedBlock)
    → IsUnique l.blocks
    → get j (prune_block l h).blocks ≡ some s
    → get j l.blocks ≡ some s
unfolding prune_block
get-prune_block l h j s u found = elim (Bool-cases (h == j)) [
  | inl b ↦ absurd (
      absent (
        sym (
          subst (λ z. get z (erase h l.blocks) ≡ none) ((==_iff h j).0 b)
            (get-erase_self h l.blocks u))
        ∙ found))
  | inr b ↦ sym (get-erase_ne h j l.blocks (λ e. ground (arith, b, e))) ∙ found
]
  where
    absent : ¬ (none ≡ some s)
    absent q = cc

prune_block-IsUnique :
    (l : Ledger) (h : BlockHash) → IsUnique l.blocks → IsUnique (prune_block l h).blocks
unfolding prune_block
prune_block-IsUnique l h u = erase-IsUnique h l.blocks u

pub prune_block-IsPrunable :
    (l : Ledger) (h : BlockHash)
    → IsPrunable l
    → confirmed_exists_or_pruned l h ≡ true
    → IsPrunable (prune_block l h)
prune_block-IsPrunable l h p sure = record {
  falls = λ j s q found before.
      p.falls j s q (get-prune_block l h j s p.unique found)
        (get-prune_block l h (previous s.block) q p.unique before);
  follows = λ j s found ready ne.
      confirmed-prune_block l h (previous s.block) sure
      ∙ p.follows j s (get-prune_block l h j s p.unique found)
          (sym (confirmed-prune_block l h j sure) ∙ ready) ne;
  unique = prune_block-IsUnique l h p.unique;
}

-- The blocks of the ledger from one on, each followed by its previous one, all confirmed: down to
-- the genesis block, to the end of the account, or to a block that was pruned before.
pub data Line (genesis_hash : BlockHash) (l : Ledger) : BlockHash → List BlockHash → Type 0 where
  ended : (h : BlockHash) → is_zero h || (h == genesis_hash) ≡ true → Line genesis_hash l h []
  met :
      (h : BlockHash)
      → is_zero h || (h == genesis_hash) ≡ false
      → get h l.blocks ≡ none
      → contains h l.pruned ≡ true
      → Line genesis_hash l h []
  link :
      (h : BlockHash) (s : SavedBlock) (hs : List BlockHash)
      → is_zero h || (h == genesis_hash) ≡ false
      → get h l.blocks ≡ some s
      → confirmed_exists_or_pruned l h ≡ true
      → Line genesis_hash l (previous s.block) hs
      → Line genesis_hash l h (h ∷ hs)

-- What a run leaves: the blocks of the line are out of the table and pruned, both counts have grown
-- by their number, and nothing else has changed.
pub record Pruned (genesis_hash : BlockHash) (l : Ledger) (h : BlockHash) (count : ℕ) (l' : Ledger)
    (count' : ℕ) : Type 0 where
  pub taken : List BlockHash
  pub line : Line genesis_hash l h taken
  pub counted : count' ≡ (count + length taken) % u64_mod
  pub total : l'.pruned_count % u64_mod ≡ (l.pruned_count + length taken) % u64_mod
  pub blocks :
      (j : BlockHash) → get j l'.blocks ≡ (if contains j taken then none else get j l.blocks)
  pub pruned : (j : BlockHash) → contains j l'.pruned ≡ (contains j taken || contains j l.pruned)
  pub others : record l' { blocks = l.blocks; pruned = l.pruned; pruned_count = l.pruned_count } ≡ l
  pub known : (j : BlockHash) → block_exists_or_pruned l' j ≡ block_exists_or_pruned l j
  pub confirmed : (j : BlockHash) → confirmed_exists_or_pruned l' j ≡ confirmed_exists_or_pruned l j

pub Pruned-self :
    (genesis_hash : BlockHash) (l : Ledger) (h : BlockHash) (count : ℕ)
    → count < u64_mod
    → Line genesis_hash l h []
    → Pruned genesis_hash l h count l count
unfolding length
Pruned-self genesis_hash l h count small line = record {
  taken = [];
  line = line;
  counted = omega (arith, small);
  total = omega arith;
  blocks = λ j. refl;
  pruned = λ j. refl;
  others = refl;
  known = λ j. refl;
  confirmed = λ j. refl;
}

module _ (genesis_hash : BlockHash) (l : Ledger) (h : BlockHash) (s : SavedBlock) (p : IsPrunable l)
    (found : get h l.blocks ≡ some s) (sure : confirmed_exists_or_pruned l h ≡ true) where
  abbrev Below : BlockHash → Type 0
  Below k = (q : SavedBlock) → get k l.blocks ≡ some q → height q < height s

  Below-ne : (k : BlockHash) → Below k → h ≢ k
  Below-ne k below same =
      let lower = below s (subst (λ z. get z l.blocks ≡ some s) same found) in
      absurd (omega (arith, lower))

  -- A line below a block does not change when the block is pruned.
  lifted :
      (k : BlockHash) (hs : List BlockHash)
      → Below k
      → Line genesis_hash (prune_block l h) k hs
      → Line genesis_hash l k hs
  unfolding prune_block
  lifted k _ below (ended k' e) = ended k e
  lifted k _ below (met k' other none_left gone) =
      let ne = Below-ne k below in
      met k other (sym (get-erase_ne h k l.blocks ne) ∙ none_left)
        (ground (arith, gone, contains-put_pruned h k l.pruned, ne, ==_iff h k))
  lifted k _ below (link k' t hs other there ready rest) =
      let there' = get-prune_block l h k t p.unique there in
      link k t hs other there' (sym (confirmed-prune_block l h k sure) ∙ ready) (
        lifted (previous t.block) hs
          (λ q q_found. omega (arith, p.falls k t q there' q_found, below t there')) rest)

  pub Pruned-after :
      (count count' : ℕ) (l' : Ledger)
      → is_zero h || (h == genesis_hash) ≡ false
      → Pruned genesis_hash (prune_block l h) (previous s.block) (add_u64 count 1) l' count'
      → Pruned genesis_hash l h count l' count'
  unfolding prune_block length
  Pruned-after count count' l' other r = record {
    taken = h ∷ r.taken;
    line =
        link h s r.taken other found sure
          (lifted (previous s.block) r.taken (λ q q_found. p.falls h s q found q_found) r.line);
    counted = omega (arith, r.counted);
    total = omega (arith, r.total);
    blocks = λ j. erased j (r.blocks j);
    pruned = λ j. ground (arith, r.pruned j, contains-put_pruned h j l.pruned);
    others =
        ap
          (λ (z : Ledger). record z {
            blocks = l.blocks;
            pruned = l.pruned;
            pruned_count = l.pruned_count;
          })
          r.others;
    known = λ j. r.known j ∙ exists-prune_block l h j (rw found refl);
    confirmed = λ j. r.confirmed j ∙ confirmed-prune_block l h j sure;
  }
    where
      erased :
          (j : BlockHash)
          → get j l'.blocks ≡ (if contains j r.taken then none else get j (erase h l.blocks))
          → get j l'.blocks ≡ (if contains j (h ∷ r.taken) then none else get j l.blocks)
      erased j left = elim (Bool-cases (h == j)) [
        | inl b ↦
            let gone =
              subst (λ z. get z (erase h l.blocks) ≡ none) ((==_iff h j).0 b)
                (get-erase_self h l.blocks p.unique) in
            ground (arith, left, gone, b)
        | inr b ↦ ground (arith, left, get-erase_ne h j l.blocks (λ e. ground (arith, b, e)), b)
      ]
