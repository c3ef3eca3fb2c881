-- ===== src/Core/Work.antt =====
-- core/src/work/work_thresholds.rs: the proof-of-work thresholds. The difficulty of a nonce is a
-- hash (Blake2b, a third-party library), so it is a function that the record carries.
use rsbanano_node.Prelude.{ℕ, ◌-◌, ◌≤◌, ◌≡◌, Bool, true, ◌||◌, arith, leb, if◌then◌else◌}
use rsbanano_node.Prelude.Word.{u64_mod}
use rsbanano_node.Core.Types.{Root}
use rsbanano_node.Core.Epoch.{Epoch}
use rsbanano_node.Core.BlockType.{BlockType}
use rsbanano_node.Core.Details.{BlockDetails}
use rsbanano_node.Core.Block.{Block, block_type, root, work}

pub record WorkThresholds : Type 0 where
  pub epoch_1 : ℕ
  pub epoch_2 : ℕ
  pub epoch_2_receive : ℕ
  pub base : ℕ
  pub entry : ℕ
  pub get_difficulty : Root → ℕ → ℕ

abbrev min_u64 : ℕ → ℕ → ℕ
min_u64 a b = if leb a b then a else b

abbrev max_u64 : ℕ → ℕ → ℕ
max_u64 a b = if leb a b then b else a

unfoldable pub with_difficulty : (Root → ℕ → ℕ) → ℕ → ℕ → ℕ → WorkThresholds
with_difficulty difficulty epoch_1 epoch_2 epoch_2_receive = record {
  epoch_1 = epoch_1;
  epoch_2 = epoch_2;
  epoch_2_receive = epoch_2_receive;
  base = max_u64 (max_u64 epoch_1 epoch_2) epoch_2_receive;
  entry = min_u64 (min_u64 epoch_1 epoch_2) epoch_2_receive;
  get_difficulty = difficulty;
}

unfoldable pub threshold_entry : WorkThresholds → BlockType → ℕ
threshold_entry w BlockType.state = w.entry
threshold_entry w _ = w.epoch_1

abbrev threshold_of : WorkThresholds → Bool → Epoch → ℕ
threshold_of w lowered Epoch.epoch2 = if lowered then w.epoch_2_receive else w.epoch_2
threshold_of w lowered Epoch.epoch1 = w.epoch_1
threshold_of w lowered Epoch.epoch0 = w.epoch_1
threshold_of w lowered _ = u64_mod - 1

-- `WorkThresholds::threshold`; its last branch is `u64::MAX` in a release build.
unfoldable pub threshold : WorkThresholds → BlockDetails → ℕ
threshold w d = threshold_of w (d.is_receive || d.is_epoch) d.epoch

unfoldable pub difficulty_block : WorkThresholds → Block → ℕ
difficulty_block w b = w.get_difficulty (root b) (work b)

unfoldable pub validate_entry_block : WorkThresholds → Block → Bool
validate_entry_block w b = leb (threshold_entry w (block_type b)) (difficulty_block w b)

unfoldable pub is_valid_pow : WorkThresholds → Block → BlockDetails → Bool
is_valid_pow w b d = leb (threshold w d) (difficulty_block w b)

-- Whatever its details turn out to be, a state block that has enough work for the ledger passes the
-- check at the network's entry, if the threshold record was made from its three values.
pub entry-is_valid_pow :
    (f : Root → ℕ → ℕ) (e1 e2 e2r : ℕ) (b : Block) (d : BlockDetails)
    → e1 ≤ u64_mod - 1
    → block_type b ≡ BlockType.state
    → is_valid_pow (with_difficulty f e1 e2 e2r) b d ≡ true
    → validate_entry_block (with_difficulty f e1 e2 e2r) b ≡ true
unfolding with_difficulty threshold_entry threshold is_valid_pow validate_entry_block
entry-is_valid_pow f e1 e2 e2r b d h t = ground arith
