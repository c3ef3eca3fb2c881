-- ===== src/Rollback/Chain.antt =====
-- The search for a representative block along the chain of previous blocks.
use rsbanano_node.Prelude.{
  ℕ, zero, suc, ◌≡◌, ◌≢◌, ◌<◌, ◌+◌, true, some, arith, is_some, Option-cases, inl, inr, refl, ◌⊎◌,
}
use rsbanano_node.Prelude.Table.{get, nat_eq}
use rsbanano_node.Prelude.Check.{err, Result-cases}
use rsbanano_node.Core.Types.{BlockHash}
use rsbanano_node.Core.Block.{
  Block, hash, previous, legacy_send, legacy_receive, legacy_open, legacy_change, state,
}
use rsbanano_node.Core.Saved.{SavedBlock, height}
use rsbanano_node.Ledger.State.{Ledger, Constants}
use rsbanano_node.Ledger.Valid.{IsValid, IsChained}
use rsbanano_node.Rollback.Finder.{find_rep_block, rep_step}
use rsbanano_node.Rollback.Planner.{Stop}
use rsbanano_node.Rollback.Factory.{
  create_planner, get_previous_representative, representative_block_hash, planner_account,
  planner_previous,
}

-- A step either finds a block, whose hash is the block's, or goes on to the previous one.
pub rep_step_cases : (b : Block) → (rep_step b ≡ (0, hash b)) ⊎ (rep_step b ≡ (previous b, 0))
rep_step_cases (legacy_send b) = inr refl
rep_step_cases (legacy_receive b) = inr refl
rep_step_cases (legacy_open b) = inl refl
rep_step_cases (legacy_change b) = inl refl
rep_step_cases (state b) = inl refl

-- Fuel of two more than the height of the block is enough.
find_rep_block-some :
    (l : Ledger) (fuel : ℕ) (j : BlockHash)
    → IsValid l
    → IsChained l
    → ((s : SavedBlock) → get j l.blocks ≡ some s → height s + 1 < fuel)
    → 0 < fuel
    → is_some (find_rep_block fuel l.blocks j) ≡ true
unfolding find_rep_block
find_rep_block-some l zero j v k f p = ground arith
find_rep_block-some l (suc fuel) j v k f p = elim (Option-cases (get j l.blocks)) [
  | inl e ↦ ground arith
  | inr (s, e) ↦ elim (rep_step_cases s.block) [
    | inl q ↦ ground (arith, v.stored j s e, k.no_zero)
    | inr q ↦ ground (
      arith,
      f s e,
      find_rep_block-some l fuel (previous s.block) v k
          (λ y w. ground (arith, k.falls j s y e w, f s e)),
    )
  ]
]

representative_block_hash_ends :
    (l : Ledger) (head : SavedBlock)
    → IsValid l
    → IsChained l
    → get (hash head.block) l.blocks ≡ some head
    → representative_block_hash l head ≢ err Stop.endless
representative_block_hash_ends l head v k e h =
    let fuel = suc (height head) in
    elim (Option-cases (find_rep_block fuel l.blocks (previous head.block))) [
      | inl q ↦ ground (
        arith,
        find_rep_block-some l fuel (previous head.block) v k
            (λ s w. ground (arith, k.falls (hash head.block) head s e w)),
      )
      | inr (x, q) ↦ ground arith
    ]

pub get_previous_representative_ends :
    (l : Ledger) (head : SavedBlock)
    → IsValid l
    → IsChained l
    → get (hash head.block) l.blocks ≡ some head
    → get_previous_representative l head ≢ err Stop.endless
unfolding get_previous_representative
get_previous_representative_ends l head v k e h =
    elim (Result-cases (representative_block_hash l head)) [
      | inl (x, q) ↦ ground (arith, representative_block_hash_ends l head v k e)
      | inr (j, q) ↦ elim (Option-cases (get j l.blocks)) [
        | inl z ↦ ground arith
        | inr (s, z) ↦ ground arith
      ]
    ]

-- In a valid and chained ledger, the search for the representative before a stored block ends:
-- loading the planner of its rollback does not run out of fuel.
pub create_planner-ne-endless :
    (c : Constants) (now : ℕ) (l : Ledger) (head : SavedBlock)
    → IsValid l
    → IsChained l
    → get (hash head.block) l.blocks ≡ some head
    → create_planner c now l head ≢ err Stop.endless
unfolding create_planner
create_planner-ne-endless c now l head v k e h = elim (Result-cases (planner_account l head)) [
  | inl (x, q) ↦ ground arith
  | inr (a, q) ↦ elim (Result-cases (get_previous_representative l head)) [
    | inl (x, q2) ↦ ground (arith, get_previous_representative_ends l head v k e)
    | inr (rep, q2) ↦ elim (Result-cases (planner_previous l head)) [
      | inl (x, q3) ↦ elim (Option-cases (get (previous head.block) l.blocks)) [
        | inl z ↦ ground arith
        | inr (s, z) ↦ ground arith
      ]
      | inr (x, q3) ↦ ground arith
    ]
  ]
]
