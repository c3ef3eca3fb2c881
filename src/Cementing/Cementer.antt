-- ===== src/Cementing/Cementer.antt =====
-- ledger/src/block_cementer.rs: `BlockCementer::confirm`, and the `confirm` of ledger.rs. The stack is
-- a list with its back first. A refresh of the transaction shows what other threads wrote: it is a
-- function of the fuel that is left and of the ledger, and `none` where the transaction goes on.
use rsbanano_node.Prelude.{
  ℕ, zero, suc, not, Option, none, some, List, [], ◌∷◌, ◌++◌, ◌==◌, ltb, leb, if◌then◌else◌,
}
use rsbanano_node.Prelude.Table.{get, put, nat_eq}
use rsbanano_node.Prelude.Word.{add_u64}
use rsbanano_node.Prelude.Lists.{length}
use rsbanano_node.Prelude.Check.{Result, ok, err}
use rsbanano_node.Core.Types.{BlockHash}
use rsbanano_node.Core.Block.{hash}
use rsbanano_node.Core.Saved.{SavedBlock, saved_account, height}
use rsbanano_node.Ledger.State.{Ledger, Constants, block_exists, confirmed_exists_or_pruned}
use rsbanano_node.Cementing.Dependents.{dependents_iter, dependent_blocks}

pub data Stop : Type 0 where
  panicked endless : Stop

abbrev pub drop_last : List BlockHash → List BlockHash
drop_last [] = []
drop_last (h ∷ []) = []
drop_last (h ∷ j ∷ hs) = h ∷ drop_last (j ∷ hs)

-- `push_back`, and `pop_front` where the stack is too long.
unfoldable pub push_limited : ℕ → BlockHash → List BlockHash → List BlockHash
push_limited max_blocks h stack =
    if ltb max_blocks (length (h ∷ stack)) then drop_last (h ∷ stack) else h ∷ stack

-- The loop over the dependent blocks.
unfoldable pub push_dependents : ℕ → Ledger → List BlockHash → List BlockHash → List BlockHash
push_dependents max_blocks l [] stack = stack
push_dependents max_blocks l (d ∷ ds) stack =
    let pushed : List BlockHash =
      if confirmed_exists_or_pruned l d then stack else push_limited max_blocks d stack in
    push_dependents max_blocks l ds pushed

-- The confirmation height of the account rises to the block.
unfoldable pub cement : Ledger → SavedBlock → Ledger
cement l block = record l {
  confirmation_height =
      put (saved_account block) (record { height = height block; frontier = hash block.block })
        l.confirmation_height;
  cemented_count = add_u64 l.cemented_count 1;
}

pub record Cementing : Type 0 where
  pub ledger : Ledger
  pub stack : List BlockHash
  pub result : List SavedBlock

-- What a turn does after the dependent blocks were pushed.
unfoldable pub finish_turn :
    Ledger → BlockHash → SavedBlock → List BlockHash → List SavedBlock → Cementing
finish_turn l h block [] result = record { ledger = l; stack = []; result = result }
finish_turn l h block (back ∷ rest) result =
    if back == h
    then if not (confirmed_exists_or_pruned l h)
      then record { ledger = cement l block; stack = rest; result = result ++ block ∷ [] }
      else record { ledger = l; stack = rest; result = result }
    else record { ledger = l; stack = back ∷ rest; result = result }

module _ (c : Constants) (max_blocks : ℕ) where
  -- One turn of the loop for the block at the back of the stack, up to the refresh.
  unfoldable pub turn :
      Ledger → BlockHash → SavedBlock → List BlockHash → List SavedBlock → Cementing
  turn l h block stack result =
      finish_turn l h block
        (push_dependents max_blocks l
          (dependents_iter (dependent_blocks c.epochs c.genesis_account block)) stack)
        result

  module _ (refresh : ℕ → Ledger → Option Ledger) (target_hash : BlockHash) where
    unfoldable pub confirm_loop :
        ℕ → Ledger → List BlockHash → List SavedBlock → Result Stop (Ledger × List SavedBlock)
    confirm_loop zero l stack result = err endless
    confirm_loop (suc fuel) l stack result = elim stack [
      | [] ↦ ok (l, result)
      | h ∷ below ↦ elim (get h l.blocks) [
        | none ↦ err panicked
        | some block ↦
            let t = turn l h block (h ∷ below) result in
            elim (refresh fuel t.ledger) [
              | none ↦
                  if leb max_blocks (length t.result)
                  then ok (t.ledger, t.result)
                  else confirm_loop fuel t.ledger t.stack t.result
              | some refreshed ↦
                  if not (block_exists refreshed target_hash)
                  then ok (refreshed, t.result)
                  else if leb max_blocks (length t.result)
                  then ok (refreshed, t.result)
                  else confirm_loop fuel refreshed t.stack t.result
            ]
      ]
    ]

    unfoldable pub confirm : ℕ → Ledger → Result Stop (Ledger × List SavedBlock)
    confirm fuel l = confirm_loop fuel l (target_hash ∷ []) []
