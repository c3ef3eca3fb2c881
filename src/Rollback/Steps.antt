-- ===== src/Rollback/Steps.antt =====
-- What one step of a rollback deletes and keeps.
use rsbanano_node.Prelude.{
  ℕ, ◌≡◌, ◌≢◌, false, some, arith, leb, Option-cases, Bool-cases, inl, inr, refl, sym, ◌==◌, ==_iff,
}
use rsbanano_node.Prelude.Table.{
  get, del, erase, nat_eq, IsUnique, get-put, get-erase_ne, get-erase_self, put-IsUnique,
  erase-IsUnique,
}
use rsbanano_node.Prelude.Check.{ok, Result-cases}
use rsbanano_node.Core.Types.{BlockHash}
use rsbanano_node.Core.Block.{hash}
use rsbanano_node.Core.Saved.{SavedBlock, saved_account, height, pending_keys}
use rsbanano_node.Ledger.Blocks.{
  Blocks, with_successor, set_successor, successor_clear, delete_block,
}
use rsbanano_node.Ledger.State.{Ledger, Constants}
use rsbanano_node.Rollback.Planner.{
  RollbackPlanner, RollbackInstructions, RollbackStep, plan, ensure_block_is_not_confirmed,
  rollback_instructions, destination_step,
}
use rsbanano_node.Rollback.Factory.{
  create_planner, confirmation_of, get_previous_representative, planner_account, planner_previous,
}
use rsbanano_node.Rollback.Executor.{update_block_table}
use rsbanano_node.Rollback.Performer.{load_account_head, head_step}

-- Blocks stand under their own hashes, once.
pub record IsKeyed (blocks : Blocks) : Type 0 where
  pub unique : IsUnique blocks
  pub keyed : (h : BlockHash) (s : SavedBlock) → get h blocks ≡ some s → hash s.block ≡ h

pub create_planner_fields :
    (c : Constants) (now : ℕ) (l : Ledger) (head : SavedBlock) (p : RollbackPlanner)
    → create_planner c now l head ≡ ok p
    → (p.head_block ≡ head) × (p.confirmation_height ≡ confirmation_of l (saved_account head))
unfolding create_planner
create_planner_fields c now l head p h = elim (Result-cases (planner_account l head)) [
  | inl (e, q) ↦ ground arith
  | inr (a, q) ↦ elim (Result-cases (get_previous_representative l head)) [
    | inl (e, q2) ↦ ground arith
    | inr (rep, q2) ↦ elim (Result-cases (planner_previous l head)) [
      | inl (e, q3) ↦ ground arith
      | inr (x, q3) ↦ ground arith
    ]
  ]
]

plan_unconfirmed :
    (p : RollbackPlanner) (i : RollbackInstructions)
    → plan p ≡ ok (RollbackStep.roll_back_block i)
    → (leb (height p.head_block) p.confirmation_height.height ≡ false)
      × (i.block_hash ≡ hash p.head_block.block)
unfolding plan ensure_block_is_not_confirmed rollback_instructions destination_step
plan_unconfirmed p i h = ground arith

-- The block that a step takes back is in the table, and above the confirmation height.
pub record Planned (l : Ledger) (head : SavedBlock) (i : RollbackInstructions) : Type 0 where
  pub at : BlockHash
  pub found : get at l.blocks ≡ some head
  pub target : i.block_hash ≡ hash head.block
  pub unconfirmed : leb (height head) (confirmation_of l (saved_account head)).height ≡ false

loaded_from :
    (l : Ledger) (block head : SavedBlock)
    → load_account_head l block ≡ ok head
    → (j : BlockHash) × (get j l.blocks ≡ some head)
unfolding load_account_head
loaded_from l block head h = elim (Option-cases (get (saved_account block) l.accounts)) [
  | inl e ↦ ground arith
  | inr (info, e) ↦ elim (Option-cases (get info.head l.blocks)) [
    | inl q ↦ ground arith
    | inr (x, q) ↦ (info.head, ground arith)
  ]
]

pub head_step-Planned :
    (c : Constants) (now : ℕ) (l : Ledger) (block head : SavedBlock) (i : RollbackInstructions)
    → head_step c now l block ≡ ok (head, RollbackStep.roll_back_block i)
    → Planned l head i
unfolding head_step
head_step-Planned c now l block head i h = elim (Result-cases (load_account_head l block)) [
  | inl (e, q) ↦ ground arith
  | inr (x, q) ↦ elim (Result-cases (create_planner c now l x)) [
    | inl (e, q2) ↦ ground arith
    | inr (p, q2) ↦ elim (Result-cases (plan p)) [
      | inl (e, q3) ↦ ground arith
      | inr (step, q3) ↦
          let same : x ≡ head = ground arith in
          let from = loaded_from l block x q in
          let fields = create_planner_fields c now l x p q2 in
          let passed = plan_unconfirmed p i (ground arith) in
          record {
            at = from.0;
            found = ground (arith, from.1);
            target = ground (arith, fields, passed);
            unconfirmed = ground (arith, fields, passed);
          }
    ]
  ]
]

-- A block still stands in the table, but for its successor.
pub record Kept (blocks : Blocks) (j : BlockHash) (s : SavedBlock) : Type 0 where
  pub block : SavedBlock
  pub found : get j blocks ≡ some block
  pub same : block ≡ with_successor block.sideband.successor s
  pub same_height : height block ≡ height s
  pub same_account : saved_account block ≡ saved_account s

-- What the block table gives back besides the block that is deleted.
pub record Erased (blocks blocks' : Blocks) (target : BlockHash) : Type 0 where
  pub keyed : IsKeyed blocks'
  pub kept :
      (j : BlockHash) (s : SavedBlock) → j ≢ target → get j blocks ≡ some s → Kept blocks' j s

still_there :
    (blocks : Blocks) (j : BlockHash) (s : SavedBlock) → get j blocks ≡ some s → Kept blocks j s
still_there blocks j s e = record {
  block = s;
  found = e;
  same = refl;
  same_height = refl;
  same_account = refl;
}

Kept-cleared :
    (blocks blocks' : Blocks) (x j : BlockHash) (s : SavedBlock)
    → get j blocks ≡ some s
    → set_successor blocks x 0 ≡ some blocks'
    → Kept blocks' j s
unfolding set_successor
Kept-cleared blocks blocks' x j s q e = elim (Option-cases (get x blocks)) [
  | inl z ↦ ground arith
  | inr (y, z) ↦ elim (Bool-cases (x == j)) [
    | inl w ↦
        let equal : x ≡ j = (==_iff x j).0 w in
        let own : y ≡ s = ground arith in
        record {
          block = with_successor 0 s;
          found = ground (arith, get-put x j (with_successor 0 y) blocks);
          same = refl;
          same_height = refl;
          same_account = refl;
        }
    | inr w ↦ still_there blocks' j s (ground (arith, get-put x j (with_successor 0 y) blocks))
  ]
]

cleared-IsKeyed :
    (blocks blocks' : Blocks) (h next : BlockHash)
    → IsKeyed blocks
    → set_successor blocks h next ≡ some blocks'
    → IsKeyed blocks'
unfolding set_successor
cleared-IsKeyed blocks blocks' h next k e = elim (Option-cases (get h blocks)) [
  | inl q ↦ ground arith
  | inr (s, q) ↦ record {
    unique = ground (arith, put-IsUnique h (with_successor next s) blocks k.unique);
    keyed = λ j x z.
        ground (arith, get-put h j (with_successor next s) blocks, k.keyed j x, k.keyed h s);
  }
]

erased-IsKeyed : (blocks : Blocks) (h : BlockHash) → IsKeyed blocks → IsKeyed (erase h blocks)
erased-IsKeyed blocks h k = record {
  unique = erase-IsUnique h blocks k.unique;
  keyed = λ j x z. elim (Bool-cases (h == j)) [
    | inl q ↦ ground (arith, get-erase_self h blocks k.unique)
    | inr q ↦ ground (arith, get-erase_ne h j blocks (λ w. ground arith), k.keyed j x)
  ];
}

pub update_block_table-Erased :
    (i : RollbackInstructions) (blocks blocks' : Blocks)
    → IsKeyed blocks
    → update_block_table i blocks ≡ some blocks'
    → Erased blocks blocks' i.block_hash
unfolding update_block_table delete_block successor_clear del
update_block_table-Erased i blocks blocks' k h =
    let rest = erase i.block_hash blocks in
    let rest_keyed = erased-IsKeyed blocks i.block_hash k in
    elim (Option-cases i.clear_successor) [
      | inl e ↦ record {
        keyed = ground (arith, rest_keyed);
        kept = λ j s ne q.
            still_there blocks' j s
              (ground (arith, get-erase_ne i.block_hash j blocks (λ w. ne (sym w))));
      }
      | inr (x, e) ↦
          let done_so : set_successor rest x 0 ≡ some blocks' = ground arith in
          record {
            keyed = cleared-IsKeyed rest blocks' x 0 rest_keyed done_so;
            kept = λ j s ne q.
                Kept-cleared rest blocks' x j s
                  (ground (arith, get-erase_ne i.block_hash j blocks (λ w. ne (sym w)))) done_so;
          }
    ]
