-- ===== src/Bootstrap/Throttle.antt =====
-- node/src/bootstrap/ascending/throttle.rs: the results of the last samples, and how many of them were
-- successes. `none` is a loop whose fuel is spent.
pub mod Window
pub mod Resize
use rsbanano_node.Prelude.{
  ℕ, zero, suc, Bool, true, false, ◌+◌, ◌-◌, Option, none, some, List, [], ◌∷◌, ◌++◌, ltb, ◌==◌,
  if◌then◌else◌,
}
use rsbanano_node.Prelude.Lists.{length}
use rsbanano_node.Prelude.Partial.{◌>>=◌}
use rsbanano_node.Prelude.Word.{add_u64, sub_u64}

pub record Throttle : Type 0 where
  pub samples : List Bool
  pub successes : ℕ

-- `vec![sample; n]`
unfoldable pub repeat : ℕ → Bool → List Bool
repeat zero sample = []
repeat (suc n) sample = sample ∷ repeat n sample

abbrev pub new_throttle : ℕ → Throttle
new_throttle size = record { samples = repeat size true; successes = size }

abbrev pub throttled : Throttle → Bool
throttled t = t.successes == 0

unfoldable pub pop_sample : Throttle → Throttle
pop_sample t = elim t.samples [
  | [] ↦ t
  | sample ∷ rest ↦ record {
    samples = rest;
    successes = if sample then sub_u64 t.successes 1 else t.successes;
  }
]

unfoldable pub add_sample : Throttle → Bool → Throttle
add_sample t sample =
    let popped = pop_sample t in
    record {
      samples = popped.samples ++ sample ∷ [];
      successes = if sample then add_u64 popped.successes 1 else popped.successes;
    }

-- The loops of `resize`.
unfoldable pub shrink : ℕ → ℕ → Throttle → Option Throttle
shrink zero size t = none
shrink (suc fuel) size t =
    let rest = shrink fuel size (pop_sample t) in
    if ltb size (length t.samples) then rest else some t

unfoldable pub grow : ℕ → ℕ → Throttle → Option Throttle
grow zero size t = none
grow (suc fuel) size t =
    let rest = grow fuel size (record t { samples = t.samples ++ false ∷ [] }) in
    if ltb (length t.samples) size then rest else some t

unfoldable pub resize : Throttle → ℕ → Option Throttle
resize t size = shrink (length t.samples + 1) size t >>= λ smaller. grow (size + 1) size smaller

-- The results of a run, from the first on.
unfoldable pub add_samples : Throttle → List Bool → Throttle
add_samples t [] = t
add_samples t (sample ∷ samples) = add_samples (add_sample t sample) samples
