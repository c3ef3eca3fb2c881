-- ===== src/Insertion/Process.antt =====
-- `Ledger::process` (ledger/src/ledger.rs).
use rsbanano_node.Prelude.{ℕ, Option, none, some}
use rsbanano_node.Prelude.Check.{Result, ok, err}
use rsbanano_node.Core.Block.{Block}
use rsbanano_node.Core.Saved.{SavedBlock}
use rsbanano_node.Ledger.State.{Ledger, Constants, BlockStatus}
use rsbanano_node.Validation.Validate.{BlockInsertInstructions, validate}
use rsbanano_node.Insertion.Factory.{create_validator}
use rsbanano_node.Insertion.Inserter.{insert}

-- How a call ends: with a result, with an error that leaves the ledger alone, or in a panic.
pub data Outcome (A : Type 0) : Type 0 where
  done : A → Outcome A
  rejected : BlockStatus → Outcome A
  panicked : Outcome A

abbrev pub finish : {A : Type 0} → Option A → Outcome A
finish none = panicked
finish (some a) = done a

abbrev insert_valid :
    Ledger → Block → Result BlockStatus BlockInsertInstructions → Outcome (Ledger × SavedBlock)
insert_valid l b (err status) = rejected status
insert_valid l b (ok i) = finish (insert l b i)

unfoldable pub process : Constants → ℕ → Ledger → Block → Outcome (Ledger × SavedBlock)
process c now l b = insert_valid l b (validate (create_validator c l now b))
