-- ===== src/Tests/Cemented.antt =====
-- The confirmation of the first send of a new network.
use rsbanano_node.Prelude.{
  ℕ, Bool, true, not, ◌&&◌, ◌-◌, ◌≤◌, ◌<◌, ◌≡◌, refl, some, List, [], ◌∷◌, arith, ltb, ◌==◌,
  is_some, ==_iff, Bool-cases, inl, inr, ◌⊎◌, map_or, ◌||◌,
}
use mathlib.Core.Path.{subst}
use rsbanano_node.Prelude.Check.{ok}
use rsbanano_node.Prelude.Table.{Table, get, nat_eq, put, IsUnique}
use rsbanano_node.Prelude.Lists.{length}
use rsbanano_node.Core.Types.{BlockHash}
use rsbanano_node.Core.Epoch.{is_epoch_link}
use rsbanano_node.Core.Saved.{SavedBlock, height}
use rsbanano_node.Ledger.State.{Ledger, contains, confirmed_exists_or_pruned, confirmed_block}
use rsbanano_node.Cementing.Dependents.{dependent_blocks}
use rsbanano_node.Cementing.Cementer.{
  confirm, push_dependents, cement, finish_turn, turn, confirm_loop,
}
use rsbanano_node.Cementing.Sound.{HasNoLoop, Grown, AllSound}
use rsbanano_node.Cementing.Descent.{dependents_of}
use rsbanano_node.Cementing.Ends.{never, IsClosed, confirm-Ends}
use rsbanano_node.Cementing.Confirmed.{RefreshKeeps, confirm-Sound}
use rsbanano_node.Cementing.Pruning.{pruning_action}
use rsbanano_node.Cementing.Line.{IsPrunable, Pruned}
use rsbanano_node.Cementing.Prunes.{pruning_action-Pruned}
use rsbanano_node.Core.Block.{hash, previous}
use rsbanano_node.Tests.Fixture.{constants}
use rsbanano_node.Tests.Network.{ledger_first, first_saved}

abbrev all_entries : (BlockHash → SavedBlock → Bool) → Table BlockHash SavedBlock → Bool
all_entries p [] = true
all_entries p ((h, s) ∷ t) = p h s && all_entries p t

entry_of_all :
    (p : BlockHash → SavedBlock → Bool) (t : Table BlockHash SavedBlock) (h : BlockHash)
    (s : SavedBlock)
    → all_entries p t ≡ true
    → get h t ≡ some s
    → p h s ≡ true
unfolding get
entry_of_all p [] h s all found = cc
entry_of_all p ((j, b) ∷ t) h s all found = elim (Bool-cases (j == h)) [
  | inl e ↦ ground (arith, all, found, e, ==_iff j h)
  | inr e ↦ entry_of_all p t h s (ground (arith, all)) (ground (arith, found, e))
]

abbrev depth : BlockHash → ℕ
depth h = h - 98

loop_free :
    all_entries (λ h s. not (contains h (dependents_of constants s))) ledger_first.blocks ≡ true
unfolding dependent_blocks is_epoch_link
loop_free = refl

ledger_first-HasNoLoop : HasNoLoop constants ledger_first
ledger_first-HasNoLoop h s found = ground (
  arith,
  entry_of_all (λ j b. not (contains j (dependents_of constants b))) ledger_first.blocks h s
      loop_free found,
)

-- The table names only deeper blocks.
abbrev deeper : BlockHash → List BlockHash → Bool
deeper h [] = true
deeper h (d ∷ ds) = (is_some (get d ledger_first.blocks) && ltb (depth d) (depth h)) && deeper h ds

deeper_at :
    (h d : BlockHash) (ds : List BlockHash)
    → deeper h ds ≡ true
    → contains d ds ≡ true
    → (is_some (get d ledger_first.blocks) ≡ true) × (depth d < depth h)
deeper_at h d [] all in_ds = cc
deeper_at h d (e ∷ ds) all in_ds = elim (Bool-cases (e == d)) [
  | inl q ↦
      subst (λ z. (is_some (get z ledger_first.blocks) ≡ true) × (depth z < depth h))
        ((==_iff e d).0 q) (ground (arith, all))
  | inr q ↦ deeper_at h d ds (ground (arith, all)) (ground (arith, in_ds, q))
]

all_deeper : all_entries (λ h s. deeper h (dependents_of constants s)) ledger_first.blocks ≡ true
unfolding dependent_blocks is_epoch_link get
all_deeper = refl

ledger_first-IsClosed : IsClosed constants depth ledger_first
ledger_first-IsClosed h s d found in_ds open_ =
    deeper_at h d (dependents_of constants s)
      (entry_of_all (λ j b. deeper j (dependents_of constants b)) ledger_first.blocks h s all_deeper
        found)
      in_ds

first_stored : is_some (get 100 ledger_first.blocks) ≡ true
unfolding get
first_stored = refl

confirm-Ends_example :
    (fuel : ℕ) × (l' : Ledger) × (result : List SavedBlock) × (confirm constants 8 never 100 fuel
        ledger_first
      ≡ ok (l', result))
    × ((confirmed_exists_or_pruned l' 100 ≡ true) ⊎ (8 ≤ length result))
confirm-Ends_example =
    confirm-Ends constants 8 100 depth ledger_first ledger_first-IsClosed ledger_first-HasNoLoop
      first_stored (omega arith)

never-RefreshKeeps : RefreshKeeps constants never
never-RefreshKeeps fuel l l' r = cc

first_confirmed :
    confirm constants 8 never 100 9 ledger_first
    ≡ ok (cement ledger_first first_saved, first_saved ∷ [])
unfolding confirm confirm_loop turn finish_turn push_dependents cement confirmed_exists_or_pruned
    confirmed_block dependent_blocks is_epoch_link get put length
first_confirmed = refl

confirm-Sound_example :
    Grown ledger_first (cement ledger_first first_saved)
    × AllSound constants (cement ledger_first first_saved) (first_saved ∷ [])
    × (length (first_saved ∷ []) ≤ 8)
confirm-Sound_example =
    confirm-Sound constants 8 never 100 never-RefreshKeeps 9 ledger_first
      (cement ledger_first first_saved) (first_saved ∷ []) ledger_first-HasNoLoop (omega arith)
      first_confirmed

abbrev ledger_cemented : Ledger
ledger_cemented = cement ledger_first first_saved

abbrev above_previous : BlockHash → SavedBlock → Bool
above_previous h s =
    map_or (get (previous s.block) ledger_cemented.blocks) true (λ p. ltb (height p) (height s))

abbrev after_confirmed : BlockHash → SavedBlock → Bool
after_confirmed h s =
    (previous s.block == 0) || confirmed_exists_or_pruned ledger_cemented (previous s.block)

cemented_falls : all_entries above_previous ledger_cemented.blocks ≡ true
unfolding get cement
cemented_falls = refl

cemented_follows : all_entries after_confirmed ledger_cemented.blocks ≡ true
unfolding get put cement confirmed_exists_or_pruned confirmed_block
cemented_follows = refl

cemented_found : get 100 ledger_cemented.blocks ≡ some first_saved
unfolding get cement
cemented_found = refl

cemented_sure : confirmed_exists_or_pruned ledger_cemented 100 ≡ true
unfolding get put cement confirmed_exists_or_pruned confirmed_block
cemented_sure = refl

cemented-IsUnique : IsUnique ledger_cemented.blocks
unfolding get cement
cemented-IsUnique = (refl, (refl, tt))

cemented-IsPrunable : IsPrunable ledger_cemented
cemented-IsPrunable = record {
  falls = λ j s p found before.
      ground (
        arith,
        entry_of_all above_previous ledger_cemented.blocks j s cemented_falls found,
        before,
      );
  follows = λ j s found sure ne.
      ground
        (arith, entry_of_all after_confirmed ledger_cemented.blocks j s cemented_follows found, ne);
  unique = cemented-IsUnique;
}

pruning_action-Pruned_example :
    (l' : Ledger) × (count : ℕ) × (pruning_action constants 4 ledger_cemented 100 10
      ≡ ok (l', count))
    × Pruned (hash constants.genesis_block.block) ledger_cemented 100 0 l' count
pruning_action-Pruned_example =
    pruning_action-Pruned constants 10 4 ledger_cemented 100 first_saved cemented-IsPrunable
      (omega arith) cemented_found cemented_sure (omega arith)
