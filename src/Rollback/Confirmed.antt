-- ===== src/Rollback/Confirmed.antt =====
-- Confirmed blocks under a rollback.
use rsbanano_node.Prelude.{
  ℕ, zero, suc, ◌≡◌, ◌≢◌, some, arith, Option-cases, Bool-cases, inl, inr, refl, ◌∙◌, ap, ◌++◌, ◌∷◌,
  [],
}
use rsbanano_node.Prelude.Table.{get, del, nat_eq}
use rsbanano_node.Prelude.Check.{ok, err, Result-cases}
use rsbanano_node.Core.Types.{BlockHash, Account}
use rsbanano_node.Core.Saved.{SavedBlock, AccountInfo, pending_keys}
use rsbanano_node.Ledger.Blocks.{with_successor}
use rsbanano_node.Ledger.State.{Ledger, Constants, update_account, confirmed_block, block_exists}
use rsbanano_node.Rollback.Planner.{RollbackInstructions, RollbackStep}
use rsbanano_node.Rollback.Factory.{load_block}
use rsbanano_node.Rollback.Executor.{
  execute, update_block_table, update_pending_table, roll_back_representative_cache,
}
use rsbanano_node.Rollback.Performer.{
  Performer, Ended, and_then, head_step, roll_back_while, rollback,
}
use rsbanano_node.Rollback.Steps.{IsKeyed, Planned, head_step-Planned, update_block_table-Erased}

-- The block and its sideband, but for the successor, are still there and confirmed.
abbrev StillConfirmed : Ledger → BlockHash → SavedBlock → Type 0
StillConfirmed l j s =
    (s' : SavedBlock) × (confirmed_block l j ≡ some s')
    × (s' ≡ with_successor s'.sideband.successor s)

-- Every block that is confirmed before is confirmed after.
pub record IsSafe (l l' : Ledger) : Type 0 where
  pub keyed : IsKeyed l'.blocks
  pub heights : l'.confirmation_height ≡ l.confirmation_height
  pub kept : (j : BlockHash) (s : SavedBlock) → confirmed_block l j ≡ some s → StillConfirmed l' j s

IsSafe-self : (l : Ledger) → IsKeyed l.blocks → IsSafe l l
IsSafe-self l k = record { keyed = k; heights = refl; kept = λ j s h. (s, h, refl) }

IsSafe-then : (l l1 l2 : Ledger) → IsSafe l l1 → IsSafe l1 l2 → IsSafe l l2
IsSafe-then l l1 l2 a b = record {
  keyed = b.keyed;
  heights = ground (arith, a.heights, b.heights);
  kept = λ j s h.
      let (s1, h1, q1) = a.kept j s h in
      let (s2, h2, q2) = b.kept j s1 h1 in
      (s2, h2, q2 ∙ ap (with_successor s2.sideband.successor) q1);
}

update_account_keeps :
    (l l' : Ledger) (a : Account) (old new : AccountInfo)
    → update_account l a old new ≡ some l'
    → (l'.blocks ≡ l.blocks) × (l'.confirmation_height ≡ l.confirmation_height)
unfolding update_account del
update_account_keeps l l' a old new h = ground arith

executed_tables :
    (i : RollbackInstructions) (l l' : Ledger)
    → execute i l ≡ some l'
    → (update_block_table i l.blocks ≡ some l'.blocks)
      × (l'.confirmation_height ≡ l.confirmation_height)
unfolding execute
executed_tables i l l' h = elim (Option-cases (update_pending_table i l.pending)) [
  | inl e ↦ ground arith
  | inr (p, e) ↦
      let l0 = record l { pending = p } in
      elim (Option-cases (update_account l0 i.account i.old_account_info i.set_account_info)) [
        | inl e1 ↦ ground arith
        | inr (l1, e1) ↦
            let t = update_account_keeps l0 l1 i.account i.old_account_info i.set_account_info e1 in
            elim (Option-cases (update_block_table i l1.blocks)) [
              | inl e2 ↦ ground arith
              | inr (x, e2) ↦ elim (Option-cases (roll_back_representative_cache i l1.weights)) [
                | inl e3 ↦ ground arith
                | inr (y, e3) ↦ ground arith
              ]
            ]
      ]
]

module _ (l l' : Ledger) (head : SavedBlock) (i : RollbackInstructions) (k : IsKeyed l.blocks)
    (p : Planned l head i) (h : execute i l ≡ some l') where
  -- A confirmed block is not the one that is taken back.
  other_target : (j : BlockHash) (s : SavedBlock) → confirmed_block l j ≡ some s → j ≢ i.block_hash
  unfolding confirmed_block
  other_target j s c q = elim (Option-cases (get j l.blocks)) [
    | inl e ↦ ground arith
    | inr (x, e) ↦ ground (arith, p.found, p.target, p.unconfirmed, k.keyed p.at head p.found)
  ]

  executed-IsSafe : IsSafe l l'
  unfolding confirmed_block
  executed-IsSafe =
      let t = executed_tables i l l' h in
      let e = update_block_table-Erased i l.blocks l'.blocks k t.0 in
      record {
        keyed = e.keyed;
        heights = t.1;
        kept = λ j s c. elim (Option-cases (get j l.blocks)) [
          | inl q ↦ ground arith
          | inr (x, q) ↦
              let same : x ≡ s = ground arith in
              let y = e.kept j x (other_target j s c) q in
              (
                y.block,
                ground (arith, y.found, y.same_height, y.same_account),
                y.same ∙ ap (with_successor y.block.sideband.successor) same,
              )
        ];
      }

and_then-IsSafe :
    (l : Ledger) (m : Ended) (f : Performer → Ended)
    → IsSafe l m.0.ledger
    → ((p : Performer) → IsKeyed p.ledger.blocks → IsSafe p.ledger (f p).0.ledger)
    → IsSafe l (and_then m f).0.ledger
and_then-IsSafe l (p, err e) f a b = a
and_then-IsSafe l (p, ok _) f a b = IsSafe-then l p.ledger (f p).0.ledger a (b p a.keyed)

roll_back_while-IsSafe :
    (fuel : ℕ) (c : Constants) (now : ℕ) (block : SavedBlock) (h : BlockHash) (p : Performer)
    → IsKeyed p.ledger.blocks
    → IsSafe p.ledger (roll_back_while fuel c now block h p).0.ledger
unfolding roll_back_while
roll_back_while-IsSafe zero c now block h p k = IsSafe-self p.ledger k
roll_back_while-IsSafe (suc fuel) c now block h p k =
    let l = p.ledger in
    elim (Bool-cases (block_exists l h)) [
      | inr e ↦ rw (roll_back_while, e) (IsSafe-self l k)
      | inl e ↦
          rw (roll_back_while, e)
            (elim (Result-cases (head_step c now l block)) [
              | inl (stop, q) ↦ rw q (IsSafe-self l k)
              | inr ((head, RollbackStep.roll_back_block i), q) ↦
                  rw q (elim (Option-cases (execute i l)) [
                    | inl z ↦ rw z (IsSafe-self l k)
                    | inr (l1, z) ↦
                        let one =
                          executed-IsSafe l l1 head i k (head_step-Planned c now l block head i q)
                            z in
                        rw z (
                          IsSafe-then l l1 _ one (
                            roll_back_while-IsSafe fuel c now block h
                              (record { ledger = l1; rolled_back = p.rolled_back ++ (head ∷ []) })
                              one.keyed))
                  ])
              | inr ((head, RollbackStep.request_dependency_rollback d), q) ↦
                  rw q (elim (Result-cases (load_block l d)) [
                    | inl (stop, z) ↦ rw z (IsSafe-self l k)
                    | inr (other, z) ↦ rw z (
                        and_then-IsSafe l (roll_back_while fuel c now other d p)
                          (roll_back_while fuel c now block h)
                          (roll_back_while-IsSafe fuel c now other d p k)
                          (roll_back_while-IsSafe fuel c now block h))
                  ])
            ])
    ]

-- However a rollback ends, with success, with an error, or out of fuel, every block that was
-- confirmed before is still in the ledger and confirmed, with all its content and its sideband but
-- for the successor, if each block of the ledger stood once, under its own hash; this still holds
-- then too, and no confirmation height has changed.
pub rollback-IsSafe :
    (fuel : ℕ) (c : Constants) (now : ℕ) (l : Ledger) (h : BlockHash)
    → IsKeyed l.blocks
    → IsSafe l (rollback fuel c now l h).0.ledger
unfolding rollback
rollback-IsSafe fuel c now l h k = elim (Result-cases (load_block l h)) [
  | inl (e, q) ↦ rw (rollback, q) (IsSafe-self l k)
  | inr (block, q) ↦
      rw (rollback, q)
        (roll_back_while-IsSafe fuel c now block h (record { ledger = l; rolled_back = [] }) k)
]
