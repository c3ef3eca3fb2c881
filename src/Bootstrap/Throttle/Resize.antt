-- ===== src/Bootstrap/Throttle/Resize.antt =====
-- node/src/bootstrap/ascending/throttle.rs: what a resize leaves in the window.
use rsbanano_node.Prelude.{
  ℕ, zero, suc, Bool, true, false, ◌+◌, ◌-◌, ◌^◌, ◌≤◌, ◌<◌, ◌≡◌, refl, ◌∙◌, ap, some, List, [], ◌∷◌,
  ◌++◌, ltb, if◌then◌else◌, arith, Bool-cases, inl, inr,
}
use rsbanano_node.Prelude.Lists.{length, length-++}
use rsbanano_node.Prelude.Word.{sub_u64, u64_mod}
use rsbanano_node.Bootstrap.Throttle.{Throttle, repeat, pop_sample, shrink, grow, resize}
use rsbanano_node.Bootstrap.Throttle.Window.{
  drop, IsCounted, successful-++, successful_bound, length-repeat, ++_assoc, ++_nil, drop_none,
  drop_one,
}

popped :
    (sample : Bool) (rest : List Bool) (successes : ℕ)
    → IsCounted (record { samples = sample ∷ rest; successes = successes })
    → IsCounted
        (record { samples = rest; successes = if sample then sub_u64 successes 1 else successes })
unfolding length
popped true rest successes h = (omega (arith, h, successful_bound rest), omega (arith, h))
popped false rest successes h = (omega (arith, h), omega (arith, h))

samples-shrink :
    (fuel size : ℕ) (samples : List Bool) (successes : ℕ)
    → length samples < fuel
    → IsCounted (record { samples = samples; successes = successes })
    → (t : Throttle) × (shrink fuel size (record { samples = samples; successes = successes })
        ≡ some t)
      × (t.samples ≡ drop (length samples - size) samples)
      × IsCounted t
unfolding shrink pop_sample length
samples-shrink zero size samples successes enough h = absurd (omega (arith, enough))
samples-shrink (suc fuel) size [] successes enough h = (
  record { samples = []; successes = successes },
  ground arith,
  drop_none (0 - size) [] (omega arith),
  h,
)
samples-shrink (suc fuel) size (sample ∷ rest) successes enough h =
    elim (Bool-cases (ltb size (1 + length rest))) [
      | inr b ↦ (
        record { samples = sample ∷ rest; successes = successes },
        rw b refl,
        drop_none (1 + length rest - size) (sample ∷ rest) (ground (arith, b)),
        h,
      )
      | inl b ↦
          let (t, ran, window, counted) =
            samples-shrink fuel size rest (if sample then sub_u64 successes 1 else successes)
              (omega (arith, enough)) (popped sample rest successes h) in
          (
            t,
            rw b ran,
            window
                ∙ drop_one (1 + length rest - size) (length rest - size) sample rest
                    (ground (arith, b)),
            counted,
          )
    ]

samples-grow :
    (fuel size : ℕ) (samples : List Bool) (successes : ℕ)
    → size + 1 ≤ fuel + length samples
    → 1 ≤ fuel
    → size < u64_mod
    → IsCounted (record { samples = samples; successes = successes })
    → (t : Throttle) × (grow fuel size (record { samples = samples; successes = successes })
        ≡ some t)
      × (t.samples ≡ samples ++ repeat (size - length samples) false)
      × IsCounted t
unfolding grow repeat length
samples-grow zero size samples successes enough some_fuel bound h =
    absurd (omega (arith, some_fuel))
samples-grow (suc fuel) size samples successes enough some_fuel bound h =
    elim (Bool-cases (ltb (length samples) size)) [
      | inr b ↦ (record { samples = samples; successes = successes }, rw b refl, same_window b, h)
      | inl b ↦
          let longer = length-++ samples (false ∷ []) in
          let (t, ran, window, counted) =
            samples-grow fuel size (samples ++ false ∷ []) successes (omega (arith, enough, longer))
              (ground (arith, enough, b)) bound
              (
                omega (arith, h, successful-++ samples (false ∷ [])),
                ground (arith, longer, b, bound),
              ) in
          let one_more : suc (size - length (samples ++ false ∷ [])) ≡ size - length samples =
            ground (arith, longer, b) in
          (
            t,
            rw b ran,
            window
                ∙ ++_assoc samples false (repeat (size - length (samples ++ false ∷ [])) false)
                ∙ ap (λ z. samples ++ repeat z false) one_more,
            counted,
          )
    ]
  where
    same_window :
        ltb (length samples) size ≡ false
        → samples ≡ samples ++ repeat (size - length samples) false
    same_window b =
        let none_left : 0 ≡ size - length samples = ground (arith, b) in
        ++_nil samples ∙ ap (λ z. samples ++ repeat z false) none_left

length-drop : (n : ℕ) (xs : List Bool) → length (drop n xs) ≡ length xs - n
unfolding length
length-drop zero xs = omega arith
length-drop (suc n) [] = omega arith
length-drop (suc n) (x ∷ xs) = omega (arith, length-drop n xs)

-- A resize ends, with a window of the new size: the oldest samples that do not fit are gone,
-- the others stay, failures fill the new places, and the successes are counted rightly. They
-- were before, and there are fewer than 2^64 samples before and after.
pub samples-resize :
    (t : Throttle) (size : ℕ)
    → size < 2 ^ 64
    → IsCounted t
    → (u : Throttle) × (resize t size ≡ some u)
      × (u.samples
          ≡ drop (length t.samples - size) t.samples
            ++ repeat (size - length (drop (length t.samples - size) t.samples)) false)
      × (length u.samples ≡ size)
      × IsCounted u
unfolding resize
samples-resize t size bound h =
    let (v, ran, window, counted) =
      samples-shrink (length t.samples + 1) size t.samples t.successes (omega arith) h in
    let (u, grown, longer, left) =
      samples-grow (size + 1) size v.samples v.successes (omega arith) (omega arith) bound
        counted in
    let kept = drop (length t.samples - size) t.samples in
    let window' = longer ∙ ap (λ z. z ++ repeat (size - length z) false) window in
    (
      u,
      rw ran grown,
      window',
      rw window' (
          omega (
            arith,
            length-++ kept (repeat (size - length kept) false),
            length-repeat (size - length kept) false,
            length-drop (length t.samples - size) t.samples,
          )),
      left,
    )
