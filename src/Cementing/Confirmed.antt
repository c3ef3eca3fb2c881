-- ===== src/Cementing/Confirmed.antt =====
-- ledger/src/block_cementer.rs: the turns of `confirm`, and the blocks that it returns.
use rsbanano_node.Prelude.{
  ℕ, zero, suc, true, false, ◌+◌, ◌≤◌, ◌<◌, Option, some, List, [], ◌∷◌, ◌≡◌, ◌≢◌, refl, sym, ◌∙◌,
  ap, ◌==◌, leb, Bool-cases, Option-cases, inl, inr, ◌⊎◌, arith, ==_iff,
}
use mathlib.Core.Path.{subst}
use rsbanano_node.Prelude.Table.{get, nat_eq}
use rsbanano_node.Prelude.Lists.{length, length-++}
use rsbanano_node.Prelude.Check.{Result, ok, err}
use rsbanano_node.Core.Types.{BlockHash}
use rsbanano_node.Core.Saved.{SavedBlock}
use rsbanano_node.Ledger.State.{
  Ledger, Constants, contains, block_exists, confirmed_exists_or_pruned,
}
use rsbanano_node.Cementing.Dependents.{
  dependents_iter, dependent_blocks, all_confirmed, dependents_confirmed,
}
use rsbanano_node.Cementing.Cementer.{
  Stop, push_dependents, cement, finish_turn, turn, confirm, confirm_loop,
}
use rsbanano_node.Cementing.Sound.{
  Grown, Grown-refl, Grown-trans, AllSound, AllSound-Grown, AllSound-++, all_confirmed-Grown,
  HasNoLoop, cement-Grown, cement-IsCemented, push_dependents-Pushed,
}

true_ne_false : ¬ (true ≡ false)
true_ne_false h = cc

-- What other threads write at a refresh leaves confirmed blocks confirmed, and puts no block into the
-- table that depends on itself.
abbrev pub RefreshKeeps : Constants → (ℕ → Ledger → Option Ledger) → Type 0
RefreshKeeps c refresh =
    (fuel : ℕ) (l l' : Ledger) → refresh fuel l ≡ some l' → Grown l l' × HasNoLoop c l'

abbrev pub Advanced : Constants → Ledger → List SavedBlock → Ledger → List SavedBlock → Type 0
Advanced c l result l' result' = Grown l l' × AllSound c l' result'

finish_turn-Advanced :
    (c : Constants) (l : Ledger) (h : BlockHash) (s : SavedBlock) (y : BlockHash)
    (ys : List BlockHash) (result : List SavedBlock)
    → get h l.blocks ≡ some s
    → AllSound c l result
    → (y ≡ h → dependents_confirmed c l s ≡ true)
    → Advanced c l result
        (finish_turn l h s (y ∷ ys) result).ledger
        (finish_turn l h s (y ∷ ys) result).result
unfolding finish_turn dependents_confirmed
finish_turn-Advanced c l h s y ys result found sound ready = elim (Bool-cases (y == h)) [
  | inr b ↦ rw (finish_turn, b) (Grown-refl l, sound)
  | inl b ↦ elim (Bool-cases (confirmed_exists_or_pruned l h)) [
    | inl q ↦ rw (finish_turn, b, q) (Grown-refl l, sound)
    | inr q ↦
        let grown = cement-Grown l h s found q in
        rw (finish_turn, b, q)
          (
            grown,
            AllSound-++ c (cement l s) result (s ∷ [])
                (AllSound-Grown c l (cement l s) result grown sound)
                (
                  (
                    cement-IsCemented l s,
                    all_confirmed-Grown l (cement l s) _ grown (ready ((==_iff y h).0 b)),
                  ),
                  tt,
                ),
          )
  ]
]

turn-Advanced :
    (c : Constants) (max_blocks : ℕ) (l : Ledger) (h : BlockHash) (s : SavedBlock)
    (below : List BlockHash) (result : List SavedBlock)
    → HasNoLoop c l
    → get h l.blocks ≡ some s
    → AllSound c l result
    → Advanced c l result
        (turn c max_blocks l h s (h ∷ below) result).ledger
        (turn c max_blocks l h s (h ∷ below) result).result
unfolding turn dependents_confirmed
turn-Advanced c max_blocks l h s below result no_loop found sound =
    let ds = dependents_iter (dependent_blocks c.epochs c.genesis_account s) in
    let (y, ys, pushed, back) = push_dependents-Pushed max_blocks l ds h below in
    rw (turn, pushed) (finish_turn-Advanced c l h s y ys result found sound (ready y back))
  where
    ready :
        (y : BlockHash)
        → ((all_confirmed l (dependents_iter (dependent_blocks c.epochs c.genesis_account s))
              ≡ true)
            × (y ≡ h))
          ⊎ (contains y (dependents_iter (dependent_blocks c.epochs c.genesis_account s)) ≡ true)
        → y ≡ h
        → dependents_confirmed c l s ≡ true
    ready y (inl (q, same)) e = q
    ready y (inr q) e = absurd (
        true_ne_false (
          sym q
          ∙ ap (λ z. contains z (dependents_iter (dependent_blocks c.epochs c.genesis_account s))) e
          ∙ no_loop h s found))

finish_turn_rest :
    (l : Ledger) (h : BlockHash) (s : SavedBlock) (pushed : List BlockHash)
    (result : List SavedBlock)
    → ((finish_turn l h s pushed result).ledger.blocks ≡ l.blocks)
      × (length (finish_turn l h s pushed result).result ≤ length result + 1)
unfolding finish_turn cement length
finish_turn_rest l h s [] result = (refl, omega arith)
finish_turn_rest l h s (y ∷ ys) result = elim (Bool-cases (y == h)) [
  | inr b ↦ rw (finish_turn, b) (refl, omega arith)
  | inl b ↦ elim (Bool-cases (confirmed_exists_or_pruned l h)) [
    | inl q ↦ rw (finish_turn, b, q) (refl, omega arith)
    | inr q ↦ rw (finish_turn, b, q) (refl, omega (arith, length-++ result (s ∷ [])))
  ]
]

-- How a run ends: what it returns is sound, and no more than the maximum.
abbrev pub Ended : Constants → ℕ → Ledger → Result Stop (Ledger × List SavedBlock) → Type 0
Ended c max_blocks l (ok (l', result)) =
    Grown l l' × AllSound c l' result × (length result ≤ max_blocks)
Ended c max_blocks l (err e) = Unit

module _ (c : Constants) (max_blocks : ℕ) (refresh : ℕ → Ledger → Option Ledger)
    (target_hash : BlockHash) (keeps : RefreshKeeps c refresh) where
  Ended-after :
      (l l' : Ledger) (r : Result Stop (Ledger × List SavedBlock))
      → Grown l l'
      → Ended c max_blocks l' r
      → Ended c max_blocks l r
  Ended-after l l' (ok (l'', result)) g e = (Grown-trans l l' l'' g e.0, e.1, e.2)
  Ended-after l l' (err e) g h = tt

  confirm_loop-Ended :
      (fuel : ℕ) (l : Ledger) (stack : List BlockHash) (result : List SavedBlock)
      → HasNoLoop c l
      → AllSound c l result
      → length result < max_blocks
      → Ended c max_blocks l (confirm_loop c max_blocks refresh target_hash fuel l stack result)
  unfolding confirm_loop turn
  confirm_loop-Ended zero l stack result no_loop sound few = tt
  confirm_loop-Ended (suc fuel) l [] result no_loop sound few = (Grown-refl l, sound, omega arith)
  confirm_loop-Ended (suc fuel) l (h ∷ below) result no_loop sound few =
      elim (Option-cases (get h l.blocks)) [
        | inl e ↦ rw (confirm_loop, e) tt
        | inr (s, e) ↦
            let t = turn c max_blocks l h s (h ∷ below) result in
            let (grown, still) = turn-Advanced c max_blocks l h s below result no_loop e sound in
            let (same, longer) =
              finish_turn_rest l h s
                (push_dependents max_blocks l
                  (dependents_iter (dependent_blocks c.epochs c.genesis_account s)) (h ∷ below))
                result in
            elim (Option-cases (refresh fuel t.ledger)) [
              | inl r ↦ elim (Bool-cases (leb max_blocks (length t.result))) [
                | inl full ↦
                    rw (confirm_loop, e, r, full) (grown, still, omega (arith, longer, few))
                | inr more ↦
                    rw (confirm_loop, e, r, more)
                      (Ended-after l t.ledger _ grown (
                        confirm_loop-Ended fuel t.ledger t.stack t.result
                          (subst
                            (λ z.
                              (j : BlockHash) (b : SavedBlock)
                              → get j z ≡ some b
                              → contains j
                                  (dependents_iter (dependent_blocks c.epochs c.genesis_account b))
                                ≡ false)
                            (sym same) no_loop)
                          still (ground (arith, more))))
              ]
              | inr (l', r) ↦
                  let (kept, loopless) = keeps fuel t.ledger l' r in
                  let all_grown = Grown-trans l t.ledger l' grown kept in
                  let sound' = AllSound-Grown c t.ledger l' t.result kept still in
                  elim (Bool-cases (block_exists l' target_hash)) [
                    | inr gone ↦
                        rw (confirm_loop, e, r, gone)
                          (all_grown, sound', omega (arith, longer, few))
                    | inl there ↦ elim (Bool-cases (leb max_blocks (length t.result))) [
                      | inl full ↦
                          rw (confirm_loop, e, r, there, full)
                            (all_grown, sound', omega (arith, longer, few))
                      | inr more ↦
                          rw (confirm_loop, e, r, there, more)
                            (Ended-after l l' _ all_grown (
                              confirm_loop-Ended fuel l' t.stack t.result loopless sound'
                                (ground (arith, more))))
                    ]
                  ]
            ]
      ]

  -- Where `confirm` ends with a result, every block in it is confirmed, and so is all that it
  -- depends on; no confirmation height has fallen and no confirmed block is unconfirmed, and
  -- the result is no longer than the maximum, which is not zero. This holds whatever other
  -- threads write when the transaction is refreshed, as long as that leaves confirmed blocks
  -- confirmed; no stored block depends on itself, before and after each refresh.
  pub confirm-Sound :
      (fuel : ℕ) (l l' : Ledger) (result : List SavedBlock)
      → HasNoLoop c l
      → max_blocks ≢ 0
      → confirm c max_blocks refresh target_hash fuel l ≡ ok (l', result)
      → Grown l l' × AllSound c l' result × (length result ≤ max_blocks)
  unfolding confirm length
  confirm-Sound fuel l l' result no_loop some_blocks ended =
      subst (λ z. Ended c max_blocks l z) ended
        (confirm_loop-Ended fuel l (target_hash ∷ []) [] no_loop tt (omega arith))
