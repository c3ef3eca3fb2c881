-- ===== src/Bootstrap/Throttle/Window.antt =====
-- node/src/bootstrap/ascending/throttle.rs: that it is throttled when no result in its window was a success.
use mathlib.Core.Path.{subst}
use rsbanano_node.Prelude.{
  ℕ, zero, suc, Bool, true, false, not, ◌||◌, ◌+◌, ◌^◌, ◌≤◌, ◌<◌, ◌≡◌, ◌≢◌, refl, sym, ◌∙◌, ap,
  List, [], ◌∷◌, ◌++◌, ◌==◌, if◌then◌else◌, arith,
}
use rsbanano_node.Prelude.Lists.{length, length-++}
use rsbanano_node.Prelude.Word.{u64_mod}
use rsbanano_node.Bootstrap.Throttle.{
  Throttle, repeat, new_throttle, throttled, pop_sample, add_sample, add_samples,
}

-- How many samples were successes.
abbrev pub successful : List Bool → ℕ
successful [] = 0
successful (sample ∷ samples) = (if sample then 1 else 0) + successful samples

abbrev pub any_success : List Bool → Bool
any_success [] = false
any_success (sample ∷ samples) = sample || any_success samples

-- The list without its first elements.
abbrev pub drop : ℕ → List Bool → List Bool
drop zero samples = samples
drop (suc n) [] = []
drop (suc n) (sample ∷ samples) = drop n samples

-- The count is that of the successes, and there are fewer than 2^64 samples.
abbrev pub IsCounted : Throttle → Type 0
IsCounted t = (t.successes ≡ successful t.samples) × (length t.samples < u64_mod)

pub successful-++ : (xs ys : List Bool) → successful (xs ++ ys) ≡ successful xs + successful ys
successful-++ [] ys = omega arith
successful-++ (x ∷ xs) ys = omega (arith, successful-++ xs ys)

pub successful_bound : (xs : List Bool) → successful xs ≤ length xs
unfolding length
successful_bound [] = omega arith
successful_bound (x ∷ xs) = ground (arith, successful_bound xs)

successful_none : (xs : List Bool) → (successful xs == 0) ≡ not (any_success xs)
successful_none [] = refl
successful_none (true ∷ xs) = ground arith
successful_none (false ∷ xs) = ground (arith, successful_none xs)

pub length-repeat : (n : ℕ) (sample : Bool) → length (repeat n sample) ≡ n
unfolding repeat length
length-repeat zero sample = refl
length-repeat (suc n) sample = omega (arith, length-repeat n sample)

successful-repeat : (n : ℕ) → successful (repeat n true) ≡ n
unfolding repeat
successful-repeat zero = refl
successful-repeat (suc n) = omega (arith, successful-repeat n)

pub ++_assoc : (xs : List Bool) (y : Bool) (ys : List Bool) → (xs ++ y ∷ []) ++ ys ≡ xs ++ y ∷ ys
++_assoc [] y ys = refl
++_assoc (x ∷ xs) y ys = ap (λ z. x ∷ z) (++_assoc xs y ys)

-- A sample takes the place of the oldest one.
samples-add_sample :
    (oldest : Bool) (rest : List Bool) (successes : ℕ) (sample : Bool)
    → IsCounted (record { samples = oldest ∷ rest; successes = successes })
    → ((add_sample (record { samples = oldest ∷ rest; successes = successes }) sample).samples
        ≡ rest ++ sample ∷ [])
      × IsCounted (add_sample (record { samples = oldest ∷ rest; successes = successes }) sample)
unfolding add_sample pop_sample length
samples-add_sample true rest successes true h = (
  refl,
  (
    omega (arith, h, successful-++ rest (true ∷ []), successful_bound rest),
    omega (arith, h, length-++ rest (true ∷ [])),
  ),
)
samples-add_sample true rest successes false h = (
  refl,
  (
    omega (arith, h, successful-++ rest (false ∷ []), successful_bound rest),
    omega (arith, h, length-++ rest (false ∷ [])),
  ),
)
samples-add_sample false rest successes true h = (
  refl,
  (
    omega (arith, h, successful-++ rest (true ∷ []), successful_bound rest),
    omega (arith, h, length-++ rest (true ∷ [])),
  ),
)
samples-add_sample false rest successes false h = (
  refl,
  (
    omega (arith, h, successful-++ rest (false ∷ []), successful_bound rest),
    omega (arith, h, length-++ rest (false ∷ [])),
  ),
)

pub ++_nil : (xs : List Bool) → xs ≡ xs ++ []
++_nil [] = refl
++_nil (x ∷ xs) = ap (λ z. x ∷ z) (++_nil xs)

pub drop_none : (n : ℕ) (xs : List Bool) → n ≡ 0 → xs ≡ drop n xs
drop_none n xs none_left = ap (λ z. drop z xs) (sym none_left)

pub drop_one : (m n : ℕ) (x : Bool) (xs : List Bool) → m ≡ 1 + n → drop n xs ≡ drop m (x ∷ xs)
drop_one m n x xs one_more =
    let one_more' : suc n ≡ m = omega (arith, one_more) in ap (λ z. drop z (x ∷ xs)) one_more'

-- The window after a run of results holds the last ones, and is of the same size.
samples-add_samples :
    (results samples : List Bool) (successes : ℕ)
    → 1 ≤ length samples
    → IsCounted (record { samples = samples; successes = successes })
    → ((add_samples (record { samples = samples; successes = successes }) results).samples
        ≡ drop (length results) (samples ++ results))
      × IsCounted (add_samples (record { samples = samples; successes = successes }) results)
unfolding add_samples length
samples-add_samples [] samples successes some_sample h = (++_nil samples, h)
samples-add_samples (sample ∷ results) [] successes some_sample h =
    absurd (omega (arith, some_sample))
samples-add_samples (sample ∷ results) (oldest ∷ rest) successes some_sample h =
    let (window, counted) = samples-add_sample oldest rest successes sample h in
    let next = add_sample (record { samples = oldest ∷ rest; successes = successes }) sample in
    let longer : 1 ≤ length next.samples =
      subst (λ z. 1 ≤ length z) (sym window) (omega (arith, length-++ rest (sample ∷ []))) in
    let (last, left) = samples-add_samples results next.samples next.successes longer counted in
    (
      last
          ∙ ap (λ z. drop (length results) (z ++ results)) window
          ∙ ap (λ z. drop (length results) z) (++_assoc rest sample results)
          ∙ drop_one (1 + length results) (length results) oldest (rest ++ sample ∷ results) refl,
      left,
    )

-- After any results, the bootstrapper is throttled just when none of the last ones, as many as
-- the window has places, was a success, where the places that no result has reached count as
-- successes. The window has a place, and fewer than 2^64.
pub throttled-add_samples :
    (size : ℕ) (results : List Bool)
    → size ≢ 0
    → size < 2 ^ 64
    → throttled (add_samples (new_throttle size) results)
      ≡ not (any_success (drop (length results) (repeat size true ++ results)))
throttled-add_samples size results nonzero bound =
    let (window, counted) =
      samples-add_samples results (repeat size true) size
        (omega (arith, length-repeat size true, nonzero))
        (omega (arith, successful-repeat size), omega (arith, length-repeat size true, bound)) in
    rw (counted.0, window) (successful_none (drop (length results) (repeat size true ++ results)))
