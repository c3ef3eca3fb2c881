-- ===== src/Transport/FairQueue/Batch.antt =====
-- node/src/transport/fair_queue.rs: what `next_batch` takes, and the queue after `clear`.
use rsbanano_node.Prelude.{
  ℕ, zero, suc, false, ◌+◌, ◌≤◌, ◌≡◌, ◌≢◌, refl, sym, ◌∙◌, ap, Option, none, some, List, [], ◌∷◌,
  ◌++◌, if◌then◌else◌, arith, Bool-cases, inl, inr,
}
use mathlib.Core.Path.{subst}
use rsbanano_node.Prelude.Check.{ok, err}
use rsbanano_node.Prelude.Lists.{length}
use rsbanano_node.Prelude.Order.{Ord, lookup, range_from}
use rsbanano_node.Prelude.Order.Lookup.{same, same-true, same-false}
use rsbanano_node.Network.TokenBucket.{min}
use rsbanano_node.Transport.FairQueue.{
  panicked, FairQueue, next, batch, next_batch, clear, is_empty, len, seek, seek_next, should_seek,
}
use rsbanano_node.Transport.FairQueue.Shape.{IsQueue, items}
use rsbanano_node.Transport.FairQueue.Served.{Served, next-Served}

module _ {S T : Type 0} ⦃o : Ord S⦄ where
  -- The items of a batch that come from a source.
  abbrev pub of_source : S → List (S × T) → List T
  of_source source [] = []
  of_source source ((k, item) ∷ batch) =
      if same k source then item ∷ of_source source batch else of_source source batch

  abbrev pub Taken : FairQueue S T → List (S × T) → FairQueue S T → Type 0
  Taken q taken q' =
      IsQueue q'
      × ((source : S) → items q source ≡ of_source source taken ++ items q' source)
      × (q'.total_len + length taken ≡ q.total_len)

  Served-Taken :
      (q q' q'' : FairQueue S T) (k : S) (item : T) (rest : List (S × T))
      → Served q k item q'
      → Taken q' rest q''
      → Taken q ((k, item) ∷ rest) q''
  unfolding items length
  Served-Taken q q' q'' k item rest served taken = (
    taken.0,
    λ source. elim (Bool-cases (same k source)) [
      | inl b ↦ rw b (
          subst (λ z. items q z ≡ item ∷ items q' z) (same-true k source b) served.1
          ∙ ap (λ left. item ∷ left) (taken.1 source))
      | inr b ↦ rw b (sym (served.2 source (same-false k source b)) ∙ taken.1 source)
    ],
    omega (arith, served.3, taken.2),
  )

  batch-Taken :
      (count : ℕ) (q : FairQueue S T)
      → IsQueue q
      → count ≤ q.total_len
      → (taken : List (S × T)) × (q' : FairQueue S T) × (batch count q ≡ ok (taken, q'))
        × (length taken ≡ count)
        × Taken q taken q'
  unfolding batch length
  batch-Taken zero q h enough = ([], q, refl, refl, (h, λ source. refl, omega arith))
  batch-Taken (suc count) q h enough =
      let (k, item, q', step, served) = next-Served q h (omega arith) in
      let (rest, q'', batched, count_taken, taken) =
        batch-Taken count q' served.0 (omega (arith, served.3)) in
      (
        (k, item) ∷ rest,
        q'',
        rw (batch, step, batched) refl,
        omega (arith, count_taken),
        Served-Taken q q' q'' k item rest served taken,
      )

  abbrev pub YieldsBatch : FairQueue S T → ℕ → Type 0
  YieldsBatch q max_count =
      (taken : List (S × T)) × (q' : FairQueue S T) × (next_batch q max_count ≡ ok (taken, q'))
      × (length taken ≡ min (len q) max_count)
      × Taken q taken q'

  -- In a queue whose keys are in order, whose current key is one of them if there is one, and
  -- whose count is that of its items, below 2^64, a batch never panics and never runs for
  -- ever: it has as many items as there are, up to the maximum, and for each source these are
  -- its oldest items in the order in which they wait, followed by those that are left.
  pub next_batch-Taken : (q : FairQueue S T) (max_count : ℕ) → IsQueue q → YieldsBatch q max_count
  unfolding next_batch
  next_batch-Taken q max_count h = batch-Taken (min (len q) max_count) q h (ground arith)

  next_cleared :
      (q : FairQueue S T) (current : Option S)
      → q.current_queue_key ≡ current
      → next (clear q) ≡ err panicked
  unfolding clear next seek_next seek should_seek lookup length range_from
  next_cleared q none h = ground (arith, h)
  next_cleared q (some k) h = ground (arith, h)

  -- `clear` leaves the count of the items as it was: where items were waiting, the queue is not
  -- empty by its own count, and the next item or batch that is asked for panics.
  pub next-clear :
      (q : FairQueue S T) (max_count : ℕ)
      → q.total_len ≢ 0
      → max_count ≢ 0
      → (is_empty (clear q) ≡ false)
        × (next (clear q) ≡ err panicked)
        × (next_batch (clear q) max_count ≡ err panicked)
  unfolding clear next next_batch batch seek_next seek should_seek lookup length range_from
  next-clear q max_count h k =
      let stuck : next (clear q) ≡ err panicked = next_cleared q q.current_queue_key refl in
      (ground arith, stuck, batch_cleared (min (len q) max_count) (ground arith) stuck)
    where
      batch_cleared :
          (count : ℕ)
          → count ≢ 0
          → next (clear q) ≡ err panicked
          → batch count (clear q) ≡ err panicked
      batch_cleared zero ne stuck = absurd (ne refl)
      batch_cleared (suc count) ne stuck = rw stuck refl
