-- ===== src/Transport/FairQueue/Info.antt =====
-- node/src/transport/fair_queue.rs: `compacted_info`, the sizes of the queues in groups. A `HashMap`
-- is a keyed table.
use rsbanano_node.Prelude.{
  ℕ, ◌+◌, ◌%◌, ◌<◌, ◌≡◌, refl, Option, none, some, [], ◌∷◌, arith, Option-cases, inl, inr,
}
use rsbanano_node.Prelude.Table.{Table, Eq, get, put, total, total-put, total-put_new}
use rsbanano_node.Prelude.Word.{add_u64, u64_mod}
use rsbanano_node.Prelude.Order.{Ord, TreeMap}
use rsbanano_node.Transport.FairQueue.{Entry, FairQueue, entry_len, sum_len}
use rsbanano_node.Transport.FairQueue.Shape.{IsQueue}

pub record QueueInfo (R : Type 0) : Type 0 where
  pub source : R
  pub size : ℕ
  pub max_size : ℕ

pub record FairQueueInfo (R : Type 0) : Type 0 where
  pub queues : Table R (QueueInfo R)
  pub total_size : ℕ
  pub total_max_size : ℕ

module _ {R : Type 0} ⦃eq : Eq R⦄ where
  -- The groups add up to the totals, which are words; the limits do so up to the wrap-around.
  abbrev AddsUp : FairQueueInfo R → Type 0
  AddsUp info =
      (total (λ i. i.size) info.queues ≡ info.total_size)
      × (total (λ i. i.max_size) info.queues % u64_mod ≡ info.total_max_size)
      × (info.total_size < u64_mod)

module _ {S T R : Type 0} ⦃o : Ord S⦄ ⦃eq : Eq R⦄ (compact : S → R) where
  abbrev pub grouped : R → Entry T → Option (QueueInfo R) → QueueInfo R
  grouped source e none = record { source = source; size = entry_len e; max_size = e.max_size }
  grouped source e (some i) = record i {
    size = add_u64 i.size (entry_len e);
    max_size = add_u64 i.max_size e.max_size;
  }

  -- One turn of the loop over the queues.
  abbrev pub add_entry : FairQueueInfo R → S → Entry T → FairQueueInfo R
  add_entry info key e = record {
    queues =
        put (compact key) (grouped (compact key) e (get (compact key) info.queues)) info.queues;
    total_size = add_u64 info.total_size (entry_len e);
    total_max_size = add_u64 info.total_max_size e.max_size;
  }

  abbrev pub add_entries : FairQueueInfo R → TreeMap S (Entry T) → FairQueueInfo R
  add_entries info [] = info
  add_entries info ((key, e) ∷ m) = add_entries (add_entry info key e) m

  unfoldable pub compacted_info : FairQueue S T → FairQueueInfo R
  compacted_info q =
      add_entries (record { queues = []; total_size = 0; total_max_size = 0 }) q.queues

  -- The limits of the entries.
  abbrev pub sum_max : TreeMap S (Entry T) → ℕ
  sum_max [] = 0
  sum_max ((key, e) ∷ m) = e.max_size + sum_max m

  add_entry-AddsUp :
      (info : FairQueueInfo R) (key : S) (e : Entry T)
      → info.total_size + entry_len e < u64_mod
      → AddsUp info
      → AddsUp (add_entry info key e)
  add_entry-AddsUp info key e fits h = elim (Option-cases (get (compact key) info.queues)) [
    | inl q ↦
        let fresh = grouped (compact key) e none in
        rw q (
          omega (arith, total-put_new (λ i. i.size) (compact key) fresh info.queues q, h, fits),
          omega (arith, total-put_new (λ i. i.max_size) (compact key) fresh info.queues q, h),
          omega (arith, fits),
        )
    | inr (i, q) ↦
        let more = grouped (compact key) e (some i) in
        rw q (
          omega (arith, total-put (λ i. i.size) (compact key) more i info.queues q, h, fits),
          omega (arith, total-put (λ i. i.max_size) (compact key) more i info.queues q, h),
          omega (arith, fits),
        )
  ]

  add_entries-AddsUp :
      (info : FairQueueInfo R) (m : TreeMap S (Entry T))
      → info.total_size + sum_len m < u64_mod
      → AddsUp info
      → AddsUp (add_entries info m)
        × ((add_entries info m).total_size ≡ info.total_size + sum_len m)
        × ((add_entries info m).total_max_size ≡ (info.total_max_size + sum_max m) % u64_mod)
  add_entries-AddsUp info [] fits h = (h, omega arith, omega (arith, h))
  add_entries-AddsUp info ((key, e) ∷ m) fits h =
      let one = add_entry-AddsUp info key e (omega (arith, fits)) h in
      let (sums, size, limit) =
        add_entries-AddsUp (add_entry info key e) m (omega (arith, fits)) one in
      (sums, omega (arith, size, fits), omega (arith, limit))

  -- In a queue whose keys are in order, whose current key is one of them if there is one, and
  -- whose count is that of its items, below 2^64, the sizes that are shown for the groups of
  -- sources add up to the number of items in the queue. The limits of the groups and the
  -- limit that is shown for all are words: they add up, and are the sum of the limits of the
  -- queues, up to the wrap-around at 2^64.
  pub compacted_info-total_len :
      (q : FairQueue S T)
      → IsQueue q
      → (total (λ i. i.size) (compacted_info q).queues ≡ q.total_len)
        × ((compacted_info q).total_size ≡ q.total_len)
        × (total (λ i. i.max_size) (compacted_info q).queues % u64_mod
            ≡ (compacted_info q).total_max_size)
        × ((compacted_info q).total_max_size ≡ sum_max q.queues % u64_mod)
  unfolding compacted_info total
  compacted_info-total_len q h =
      let start : FairQueueInfo R = record { queues = []; total_size = 0; total_max_size = 0 } in
      let (sums, size, limit) =
        add_entries-AddsUp start q.queues (omega (arith, h.2, h.3)) (refl, refl, omega arith) in
      (omega (arith, sums.0, size, h.2), omega (arith, size, h.2), sums.1, omega (arith, limit))
