-- ===== src/Cementing/Ends.antt =====
-- ledger/src/block_cementer.rs: that `confirm` comes to an end, and what it then has confirmed.
use rsbanano_node.Prelude.{
  ℕ, zero, suc, true, false, ◌+◌, ◌*◌, ◌≤◌, ◌<◌, Option, none, some, List, [], ◌∷◌, ◌≡◌, refl, sym,
  ◌∙◌, ap, leb, is_some, Bool-cases, Option-cases, inl, inr, ◌⊎◌, arith,
}
use rsbanano_node.Prelude.Table.{get, nat_eq}
use rsbanano_node.Prelude.Lists.{length}
use rsbanano_node.Prelude.Check.{ok}
use rsbanano_node.Core.Types.{BlockHash}
use rsbanano_node.Core.Saved.{SavedBlock}
use rsbanano_node.Ledger.State.{Ledger, Constants, contains, confirmed_exists_or_pruned}
use rsbanano_node.Cementing.Dependents.{all_confirmed, dependent_blocks}
use rsbanano_node.Cementing.Cementer.{turn, confirm, confirm_loop}
use rsbanano_node.Cementing.Sound.{Grown, Grown-refl, Grown-trans, all_confirmed-Grown, HasNoLoop}
use rsbanano_node.Cementing.Descent.{
  dependents_of, push_all, turn-ready, turn-waiting, open_one, length-dependents_iter,
}

-- The transaction is not refreshed.
abbrev pub never : ℕ → Ledger → Option Ledger
never fuel l = none

-- The dependent blocks that are not confirmed are stored, and lie deeper.
abbrev pub IsClosed : Constants → (BlockHash → ℕ) → Ledger → Type 0
IsClosed c depth l =
    (h : BlockHash) (s : SavedBlock) (d : BlockHash)
    → get h l.blocks ≡ some s
    → contains d (dependents_of c s) ≡ true
    → confirmed_exists_or_pruned l d ≡ false
    → (is_some (get d l.blocks) ≡ true) × (depth d < depth h)

not_confirmed :
    (l l' : Ledger) (h : BlockHash)
    → Grown l l'
    → confirmed_exists_or_pruned l' h ≡ false
    → confirmed_exists_or_pruned l h ≡ false
not_confirmed l l' h g q = ground (arith, g.confirmed h)

IsClosed-Grown :
    (c : Constants) (depth : BlockHash → ℕ) (l l' : Ledger)
    → Grown l l'
    → l'.blocks ≡ l.blocks
    → IsClosed c depth l
    → IsClosed c depth l'
IsClosed-Grown c depth l l' g same closed h s d found in_ds open_ =
    let (stored, deeper) =
      closed h s d (ap (λ z. get h z) (sym same) ∙ found) in_ds (not_confirmed l l' d g open_) in
    (ap (λ z. is_some (get d z)) same ∙ stored, deeper)

HasNoLoop-same :
    (c : Constants) (l l' : Ledger) → l'.blocks ≡ l.blocks → HasNoLoop c l → HasNoLoop c l'
HasNoLoop-same c l l' same no_loop h s found = no_loop h s (ap (λ z. get h z) (sym same) ∙ found)

module _ (c : Constants) (max_blocks : ℕ) (target : BlockHash) (depth : BlockHash → ℕ) where
  -- From here the run ends: the target is confirmed, or the result is full.
  abbrev pub Ends : Ledger → List BlockHash → List SavedBlock → Type 0
  Ends l stack result =
      (fuel : ℕ) × (l' : Ledger) × (result' : List SavedBlock) × (confirm_loop c max_blocks never
          target fuel l stack result
        ≡ ok (l', result'))
      × ((confirmed_exists_or_pruned l' target ≡ true) ⊎ (max_blocks ≤ length result'))

  abbrev Goes : Ledger → List BlockHash → BlockHash → Type 0
  Goes l below h =
      (l' : Ledger) (result' : List SavedBlock)
      → Grown l l'
      → l'.blocks ≡ l.blocks
      → confirmed_exists_or_pruned l' h ≡ true
      → Ends l' below result'

  -- One turn, and what follows it.
  after_turn :
      (l l' : Ledger) (h : BlockHash) (s : SavedBlock) (below stack' : List BlockHash)
      (result result' : List SavedBlock)
      → get h l.blocks ≡ some s
      → turn c max_blocks l h s (h ∷ below) result
        ≡ record { ledger = l'; stack = stack'; result = result' }
      → Ends l' stack' result'
      → Ends l (h ∷ below) result
  unfolding confirm_loop
  after_turn l l' h s below stack' result result' found turned (fuel, l'', result'', ran, good) =
      elim (Bool-cases (leb max_blocks (length result'))) [
        | inl full ↦ (
          1,
          l',
          result',
          rw (confirm_loop, found, turned, full) refl,
          inr (ground (arith, full)),
        )
        | inr more ↦ (suc fuel, l'', result'', rw (confirm_loop, found, turned, more) ran, good)
      ]

  settle :
      (l : Ledger) (h : BlockHash) (s : SavedBlock) (below : List BlockHash)
      (result : List SavedBlock)
      → get h l.blocks ≡ some s
      → all_confirmed l (dependents_of c s) ≡ true
      → Goes l below h
      → Ends l (h ∷ below) result
  settle l h s below result found ready goes =
      let (l', result', turned, grown, same, done) =
        turn-ready c max_blocks l h s below result found ready in
      after_turn l l' h s below below result result' found turned (goes l' result' grown same done)

  -- A block of less depth than a bound, on a stack with room for what it depends on.
  abbrev Visits : ℕ → Type 0
  Visits bound =
      (l : Ledger) (h : BlockHash) (below : List BlockHash) (result : List SavedBlock)
      → IsClosed c depth l
      → HasNoLoop c l
      → is_some (get h l.blocks) ≡ true
      → depth h < bound
      → length below + 2 * depth h + 1 ≤ max_blocks
      → Goes l below h
      → Ends l (h ∷ below) result

  -- The blocks that were pushed are taken from the stack one after the other.
  drain :
      (bound : ℕ) (visits : Visits bound) (l0 l : Ledger) (ds stack : List BlockHash)
      (result : List SavedBlock)
      → Grown l0 l
      → IsClosed c depth l
      → HasNoLoop c l
      → ((d : BlockHash)
          → contains d ds ≡ true
          → confirmed_exists_or_pruned l0 d ≡ false
          → (is_some (get d l.blocks) ≡ true) × (depth d < bound))
      → length stack + length ds + 2 * bound ≤ max_blocks + 2
      → ((l' : Ledger) (result' : List SavedBlock)
          → Grown l l'
          → l'.blocks ≡ l.blocks
          → all_confirmed l' ds ≡ true
          → Ends l' stack result')
      → Ends l (push_all l0 ds stack) result
  unfolding length
  drain bound visits l0 l [] stack result grown closed no_loop known room goes =
      goes l result (Grown-refl l) refl refl
  drain bound visits l0 l (d ∷ ds) stack result grown closed no_loop known room goes =
      elim (Bool-cases (confirmed_exists_or_pruned l0 d)) [
        | inl b ↦ rw b (
            drain bound visits l0 l ds stack result grown closed no_loop
              (λ j in_ds open_. known j (ground (arith, in_ds)) open_) (omega (arith, room))
              (λ l' result' g same done.
                goes l' result' g same (ground (arith, done, g.confirmed d (grown.confirmed d b)))))
        | inr b ↦
            let (stored, deeper) = known d (ground arith) b in
            rw b (
              drain bound visits l0 l ds (d ∷ stack) result grown closed no_loop
                (λ j in_ds open_. known j (ground (arith, in_ds)) open_) (omega (arith, room))
                (λ l' result' g same done.
                  visits l' d stack result' (IsClosed-Grown c depth l l' g same closed)
                    (HasNoLoop-same c l l' same no_loop) (ap (λ z. is_some (get d z)) same ∙ stored)
                    deeper (omega (arith, room, deeper))
                    (λ l'' result'' g' same' found.
                      goes l'' result'' (Grown-trans l l' l'' g g') (same' ∙ same)
                        (ground (arith, found, all_confirmed-Grown l' l'' ds g' done)))))
      ]

  visit : (bound : ℕ) → Visits bound
  unfolding length
  visit zero l h below result closed no_loop stored less room goes = absurd (omega (arith, less))
  visit (suc bound) l h below result closed no_loop stored less room goes =
      elim (Option-cases (get h l.blocks)) [
        | inl e ↦ ground (arith, stored, e)
        | inr (s, found) ↦ elim (Bool-cases (all_confirmed l (dependents_of c s))) [
          | inl ready ↦ settle l h s below result found ready goes
          | inr waiting ↦
              let (d, in_ds, open_) = open_one l (dependents_of c s) waiting in
              let (there, deeper) = closed h s d found in_ds open_ in
              let few = length-dependents_iter (dependent_blocks c.epochs c.genesis_account s) in
              after_turn l l h s below (push_all l (dependents_of c s) (h ∷ below)) result result
                found
                (turn-waiting c max_blocks l h s below result (no_loop h s found) waiting
                  (omega (arith, room, deeper)))
                (drain (depth h)
                  (λ l1 h1 below1 result1 closed1 no_loop1 stored1 less1 room1 goes1.
                    visit bound l1 h1 below1 result1 closed1 no_loop1 stored1
                      (omega (arith, less1, less)) room1 goes1)
                  l l (dependents_of c s) (h ∷ below) result (Grown-refl l) closed no_loop
                  (λ j in_j open_j. closed h s j found in_j open_j) (omega (arith, few, room))
                  (λ l' result' g same done.
                    settle l' h s below result' (ap (λ z. get h z) same ∙ found) done
                      (λ l'' result'' g' same' q.
                        goes l'' result'' (Grown-trans l l' l'' g g') (same' ∙ same) q)))
        ]
      ]

  -- With enough turns `confirm` ends without a panic, where the transaction is not refreshed:
  -- then the target is confirmed, or the result is full. The target is stored, no stored
  -- block depends on itself, each dependent block that is not confirmed is stored and lies
  -- deeper than the block that depends on it, for some measure of depth, and the maximum is
  -- above twice the depth of the target.
  pub confirm-Ends :
      (l : Ledger)
      → IsClosed c depth l
      → HasNoLoop c l
      → is_some (get target l.blocks) ≡ true
      → 2 * depth target + 1 ≤ max_blocks
      → (fuel : ℕ) × (l' : Ledger) × (result : List SavedBlock) × (confirm c max_blocks never target
            fuel l
          ≡ ok (l', result))
        × ((confirmed_exists_or_pruned l' target ≡ true) ⊎ (max_blocks ≤ length result))
  unfolding confirm confirm_loop length
  confirm-Ends l closed no_loop stored room =
      visit (suc (depth target)) l target [] [] closed no_loop stored (omega arith)
        (omega (arith, room)) (λ l' result' g same done. (1, l', result', refl, inl done))
