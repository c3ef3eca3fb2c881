-- ===== src/Rollback/Performer.antt =====
-- ledger/src/block_rollback/rollback_performer.rs and `Ledger::rollback`: the head blocks of an
-- account are taken back until a block is gone, and what depends on them before. The transaction
-- keeps what was written before an error. Each turn of a loop and each call takes one unit of fuel.
use rsbanano_node.Prelude.{ℕ, zero, suc, true, false, none, some, List, [], ◌∷◌, ◌++◌}
use rsbanano_node.Prelude.Table.{get, nat_eq}
use rsbanano_node.Prelude.Check.{Result, ok, err, ◌>>=◌}
use rsbanano_node.Core.Types.{BlockHash}
use rsbanano_node.Core.Saved.{SavedBlock, saved_account}
use rsbanano_node.Ledger.State.{Ledger, Constants, block_exists}
use rsbanano_node.Rollback.Planner.{Stop, RollbackStep, plan}
use rsbanano_node.Rollback.Factory.{load_block, create_planner}
use rsbanano_node.Rollback.Executor.{execute}

pub record Performer : Type 0 where
  pub ledger : Ledger
  pub rolled_back : List SavedBlock

unfoldable pub load_account_head : Ledger → SavedBlock → Result Stop SavedBlock
load_account_head l block = elim (get (saved_account block) l.accounts) [
  | none ↦ err Stop.panicked
  | some info ↦ load_block l info.head
]

-- The head block of a block's account, and the step that rolls it back.
unfoldable pub head_step :
    Constants → ℕ → Ledger → SavedBlock → Result Stop (SavedBlock × RollbackStep)
head_step c now l block = do
  head ← load_account_head l block
  planner ← create_planner c now l head
  step ← plan planner
  ok (head, step)

abbrev pub Ended : Type 0
Ended = Performer × Result Stop (Unit {0})

-- `?` on a call that writes.
abbrev pub and_then : Ended → (Performer → Ended) → Ended
and_then (p, err e) f = (p, err e)
and_then (p, ok _) f = f p

-- The loop of `roll_back_block_and_successors`.
unfoldable pub roll_back_while : ℕ → Constants → ℕ → SavedBlock → BlockHash → Performer → Ended
roll_back_while zero c now block h p = (p, err Stop.endless)
roll_back_while (suc fuel) c now block h p = elim (block_exists p.ledger h) [
  | false ↦ (p, ok tt)
  | true ↦ elim (head_step c now p.ledger block) [
    | err e ↦ (p, err e)
    | ok (head, RollbackStep.roll_back_block i) ↦ elim (execute i p.ledger) [
      | none ↦ (p, err Stop.panicked)
      | some l ↦
          roll_back_while fuel c now block h
            (record { ledger = l; rolled_back = p.rolled_back ++ (head ∷ []) })
    ]
    | ok (head, RollbackStep.request_dependency_rollback dependency) ↦
        elim (load_block p.ledger dependency) [
          | err e ↦ (p, err e)
          | ok other ↦
              and_then (roll_back_while fuel c now other dependency p)
                (roll_back_while fuel c now block h)
        ]
  ]
]

-- `Ledger::rollback`: the ledger it leaves behind, and the blocks that were taken back.
unfoldable pub rollback : ℕ → Constants → ℕ → Ledger → BlockHash → Ended
rollback fuel c now l h = elim (load_block l h) [
  | err e ↦ (record { ledger = l; rolled_back = [] }, err e)
  | ok block ↦ roll_back_while fuel c now block h (record { ledger = l; rolled_back = [] })
]
