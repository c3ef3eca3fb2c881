-- ===== src/Tests/Samples.antt =====
-- The throttle of the bootstrapper with small windows.
use rsbanano_node.Prelude.{Bool, true, false, not, ◌-◌, ◌≡◌, refl, some, List, [], ◌∷◌, ◌++◌, arith}
use rsbanano_node.Prelude.Lists.{length}
use rsbanano_node.Bootstrap.Throttle.{
  Throttle, repeat, new_throttle, throttled, add_samples, resize,
}
use rsbanano_node.Bootstrap.Throttle.Window.{any_success, drop, IsCounted, throttled-add_samples}
use rsbanano_node.Bootstrap.Throttle.Resize.{samples-resize}

abbrev results : List Bool
results = true ∷ false ∷ false ∷ []

throttled-add_samples_example :
    throttled (add_samples (new_throttle 2) results)
    ≡ not (any_success (drop (length results) (repeat 2 true ++ results)))
throttled-add_samples_example = throttled-add_samples 2 results (omega arith) (omega arith)

abbrev three_samples : Throttle
three_samples = record { samples = results; successes = 1 }

samples-resize_example :
    (u : Throttle) × (resize three_samples 2 ≡ some u)
    × (u.samples
        ≡ drop (length results - 2) results
          ++ repeat (2 - length (drop (length results - 2) results)) false)
    × (length u.samples ≡ 2)
    × IsCounted u
unfolding length
samples-resize_example = samples-resize three_samples 2 (omega arith) (refl, omega arith)
