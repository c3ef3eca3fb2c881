-- ===== src/Cementing/Descent.antt =====
-- ledger/src/block_cementer.rs: the turns of `confirm` where the stack does not overflow.
use rsbanano_node.Prelude.{
  ℕ, true, false, ◌+◌, ◌≤◌, some, List, [], ◌∷◌, ◌++◌, ◌≡◌, refl, sym, ◌∙◌, ap, ◌==◌, ltb,
  if◌then◌else◌, Bool-cases, inl, inr, ◌⊎◌, arith, ==_iff,
}
use rsbanano_node.Prelude.Table.{get, nat_eq}
use rsbanano_node.Prelude.Lists.{length}
use rsbanano_node.Core.Types.{BlockHash}
use rsbanano_node.Core.Saved.{SavedBlock}
use rsbanano_node.Ledger.State.{
  Ledger, Constants, contains, confirmed_block, confirmed_exists_or_pruned,
}
use rsbanano_node.Cementing.Dependents.{
  DependentBlocks, dependents_iter, dependent_blocks, all_confirmed,
}
use rsbanano_node.Cementing.Cementer.{push_limited, push_dependents, cement, finish_turn, turn}
use rsbanano_node.Cementing.Sound.{
  Grown, Grown-refl, cement-Grown, cement-IsCemented, push_dependents-Pushed,
}

true_ne_false : ¬ (true ≡ false)
true_ne_false h = cc

abbrev pub dependents_of : Constants → SavedBlock → List BlockHash
dependents_of c s = dependents_iter (dependent_blocks c.epochs c.genesis_account s)

-- The stack with the dependent blocks that are not confirmed.
abbrev pub push_all : Ledger → List BlockHash → List BlockHash → List BlockHash
push_all l [] stack = stack
push_all l (d ∷ ds) stack =
    push_all l ds (if confirmed_exists_or_pruned l d then stack else d ∷ stack)

pub length-dependents_iter : (d : DependentBlocks) → length (dependents_iter d) ≤ 2
unfolding length
length-dependents_iter d = ground arith

pub push_dependents-push_all :
    (max_blocks : ℕ) (l : Ledger) (ds stack : List BlockHash)
    → length stack + length ds ≤ max_blocks
    → push_dependents max_blocks l ds stack ≡ push_all l ds stack
unfolding push_dependents push_limited length
push_dependents-push_all max_blocks l [] stack h = refl
push_dependents-push_all max_blocks l (d ∷ ds) stack h =
    elim (Bool-cases (confirmed_exists_or_pruned l d)) [
      | inl b ↦
          rw (push_dependents, b)
            (push_dependents-push_all max_blocks l ds stack (omega (arith, h)))
      | inr b ↦
          let fits : ltb max_blocks (length (d ∷ stack)) ≡ false = ground arith in
          rw (push_dependents, b, push_limited, fits)
            (push_dependents-push_all max_blocks l ds (d ∷ stack) (omega (arith, h)))
    ]

pub push_dependents-confirmed :
    (max_blocks : ℕ) (l : Ledger) (ds stack : List BlockHash)
    → all_confirmed l ds ≡ true
    → push_dependents max_blocks l ds stack ≡ stack
unfolding push_dependents
push_dependents-confirmed max_blocks l [] stack h = refl
push_dependents-confirmed max_blocks l (d ∷ ds) stack h =
    ground (arith, push_dependents-confirmed max_blocks l ds stack)

-- One of the blocks is not confirmed.
pub open_one :
    (l : Ledger) (ds : List BlockHash)
    → all_confirmed l ds ≡ false
    → (d : BlockHash) × (contains d ds ≡ true) × (confirmed_exists_or_pruned l d ≡ false)
open_one l [] h = cc
open_one l (d ∷ ds) h = elim (Bool-cases (confirmed_exists_or_pruned l d)) [
  | inr b ↦ (d, ground arith, b)
  | inl b ↦
      let (j, in_ds, open_) = open_one l ds (ground arith) in (j, ground (arith, in_ds), open_)
]

pub cement-confirmed :
    (l : Ledger) (h : BlockHash) (s : SavedBlock)
    → get h l.blocks ≡ some s
    → confirmed_exists_or_pruned (cement l s) h ≡ true
unfolding confirmed_exists_or_pruned confirmed_block cement
cement-confirmed l h s found =
    let (info, got, le) = cement-IsCemented l s in ground (arith, found, got, le)

cement_blocks : (l : Ledger) (s : SavedBlock) → (cement l s).blocks ≡ l.blocks
unfolding cement
cement_blocks l s = refl

-- The turn for a block whose dependent blocks are all confirmed.
pub turn-ready :
    (c : Constants) (max_blocks : ℕ) (l : Ledger) (h : BlockHash) (s : SavedBlock)
    (below : List BlockHash) (result : List SavedBlock)
    → get h l.blocks ≡ some s
    → all_confirmed l (dependents_of c s) ≡ true
    → (l' : Ledger) × (result' : List SavedBlock) × (turn c max_blocks l h s (h ∷ below) result
        ≡ record { ledger = l'; stack = below; result = result' })
      × Grown l l'
      × (l'.blocks ≡ l.blocks)
      × (confirmed_exists_or_pruned l' h ≡ true)
unfolding turn finish_turn
turn-ready c max_blocks l h s below result found ready =
    let unchanged = push_dependents-confirmed max_blocks l (dependents_of c s) (h ∷ below) ready in
    let same : h == h ≡ true = ground arith in
    elim (Bool-cases (confirmed_exists_or_pruned l h)) [
      | inl q ↦ (l, result, rw (turn, unchanged, finish_turn, same, q) refl, Grown-refl l, refl, q)
      | inr q ↦ (
        cement l s,
        result ++ s ∷ [],
        rw (turn, unchanged, finish_turn, same, q) refl,
        cement-Grown l h s found q,
        cement_blocks l s,
        cement-confirmed l h s found,
      )
    ]

-- The turn for a block with dependent blocks that are not confirmed.
pub turn-waiting :
    (c : Constants) (max_blocks : ℕ) (l : Ledger) (h : BlockHash) (s : SavedBlock)
    (below : List BlockHash) (result : List SavedBlock)
    → contains h (dependents_of c s) ≡ false
    → all_confirmed l (dependents_of c s) ≡ false
    → length below + 3 ≤ max_blocks
    → turn c max_blocks l h s (h ∷ below) result
      ≡ record { ledger = l; stack = push_all l (dependents_of c s) (h ∷ below); result = result }
unfolding turn finish_turn length
turn-waiting c max_blocks l h s below result no_loop waiting room =
    let ds = dependents_of c s in
    let few = length-dependents_iter (dependent_blocks c.epochs c.genesis_account s) in
    let (y, ys, pushed, back) = push_dependents-Pushed max_blocks l ds h below in
    let all = push_dependents-push_all max_blocks l ds (h ∷ below) (omega (arith, few, room)) in
    let apart = back_apart y back in
    rw (turn, pushed, finish_turn, apart)
      (ap (λ z. record { ledger = l; stack = z; result = result }) (sym pushed ∙ all))
  where
    back_apart :
        (y : BlockHash)
        → ((all_confirmed l (dependents_of c s) ≡ true) × (y ≡ h))
          ⊎ (contains y (dependents_of c s) ≡ true)
        → y == h ≡ false
    back_apart y (inl (q, e)) = ground (arith, q, waiting)
    back_apart y (inr q) = elim (Bool-cases (y == h)) [
      | inl e ↦ absurd (
          true_ne_false
            (sym q ∙ ap (λ z. contains z (dependents_of c s)) ((==_iff y h).0 e) ∙ no_loop))
      | inr e ↦ e
    ]
