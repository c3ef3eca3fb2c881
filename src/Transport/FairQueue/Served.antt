-- ===== src/Transport/FairQueue/Served.antt =====
-- node/src/transport/fair_queue.rs: what `next` takes from the queue.
use rsbanano_node.Prelude.{
  ℕ, zero, suc, true, false, ◌+◌, ◌≡◌, ◌≢◌, refl, sym, ◌∙◌, Option, none, some, List, [], ◌∷◌, ◌++◌,
  ◌==◌, is_some, arith, Bool-cases, Option-cases, inl, inr,
}
use rsbanano_node.Prelude.Check.{ok}
use rsbanano_node.Prelude.Word.{add_u64, sub_u64}
use rsbanano_node.Prelude.Lists.{length}
use rsbanano_node.Prelude.Order.{
  Ord, TreeMap, lookup, insert, lookup-insert_self, lookup-insert_ne, insert-IsSorted,
}
use rsbanano_node.Transport.FairQueue.{
  Entry, FairQueue, entry_len, entry_is_empty, pop_entry, sum_len, seek, seek_fuel, seek_next,
  should_seek, take_current, next, or_first, following,
}
use rsbanano_node.Transport.FairQueue.Rotation.{find_ready, behind, rotation}
use rsbanano_node.Transport.FairQueue.Seek.{find_ready-++, seek-rotation}
use rsbanano_node.Transport.FairQueue.Shape.{IsQueue, items, sum_len-insert, insert-IsPresent}

requests_front :
    {T : Type 0} (e : Entry T)
    → entry_is_empty e ≡ false
    → (x : T) × (xs : List T) × (e.requests ≡ x ∷ xs)
unfolding length
requests_front {T} e h = go e.requests h
  where
    go : (xs : List T) → (length xs == 0) ≡ false → (y : T) × (ys : List T) × (xs ≡ y ∷ ys)
    go [] q = cc
    go (x ∷ xs) q = (x, xs, refl)

module _ {S T : Type 0} ⦃o : Ord S⦄ where
  -- The oldest item of a source was taken, and nothing else changed for any source.
  abbrev pub Served : FairQueue S T → S → T → FairQueue S T → Type 0
  Served q source item q' =
      IsQueue q'
      × (items q source ≡ item ∷ items q' source)
      × ((other : S) → source ≢ other → items q' other ≡ items q other)
      × (q'.total_len + 1 ≡ q.total_len)

  ready_some : (m : TreeMap S (Entry T)) → sum_len m ≢ 0 → is_some (find_ready m) ≡ true
  unfolding length
  ready_some [] h = absurd (h refl)
  ready_some ((k, e) ∷ m) h = ground (arith, ready_some m)

  seek-ready :
      (fuel : ℕ) (m : TreeMap S (Entry T)) (current : Option S) (k : S)
      → seek fuel m current ≡ ok k
      → (e : Entry T) × (lookup k m ≡ some e) × (entry_is_empty e ≡ false)
  unfolding seek
  seek-ready zero m current k h = cc
  seek-ready (suc fuel) m current k h = elim (Option-cases (or_first m (following m current))) [
    | inl e ↦ ground (arith, h, e)
    | inr (j, e) ↦ elim (Option-cases (lookup j m)) [
      | inl found ↦ ground (arith, h, e, found)
      | inr (d, found) ↦ elim (Bool-cases (entry_is_empty d)) [
        | inl b ↦ seek-ready fuel m (some j) k (rw (seek, e, found, b) at h)
        | inr b ↦ (d, ground (arith, rw (seek, e, found, b) at h, found), b)
      ]
    ]
  ]

  -- The queue of a source without its first item.
  abbrev rest_of : FairQueue S T → S → Entry T → List T → FairQueue S T
  rest_of q k e xs = record q {
    queues = insert k (record e { requests = xs }) q.queues;
    counter = add_u64 q.counter 1;
    total_len = sub_u64 q.total_len 1;
  }

  rest_of-Served :
      (q : FairQueue S T) (k : S) (e : Entry T) (x : T) (xs : List T)
      → IsQueue q
      → lookup k q.queues ≡ some e
      → e.requests ≡ x ∷ xs
      → Served q k x (rest_of q k e xs)
  unfolding items length
  rest_of-Served q k e x xs h found front =
      let rest : Entry T = record e { requests = xs } in
      let sum = sum_len-insert k rest e q.queues h.0 found in
      let size : entry_len e ≡ 1 + length xs = rw front refl in
      (
        (
          insert-IsSorted k rest q.queues h.0,
          insert-IsPresent k rest q.queues q.current_queue_key h.1,
          omega (arith, sum, size, h.2, h.3),
          omega (arith, sum, size, h.2, h.3),
        ),
        rw (found, lookup-insert_self k rest q.queues, front) refl,
        λ other ne. rw (lookup-insert_ne k other rest q.queues ne) refl,
        omega (arith, sum, size, h.2, h.3),
      )

  take_current_front :
      (q : FairQueue S T) (k : S) (e : Entry T) (x : T) (xs : List T)
      → q.current_queue_key ≡ some k
      → lookup k q.queues ≡ some e
      → e.requests ≡ x ∷ xs
      → take_current q ≡ ok (some (k, x), rest_of q k e xs)
  unfolding take_current pop_entry
  take_current_front q k e x xs c found front = ground (arith, c, found, front)

  take_current-Served :
      (q : FairQueue S T) (k : S) (e : Entry T)
      → IsQueue q
      → q.current_queue_key ≡ some k
      → lookup k q.queues ≡ some e
      → entry_is_empty e ≡ false
      → (item : T) × (q' : FairQueue S T) × (take_current q ≡ ok (some (k, item), q'))
        × Served q k item q'
  unfolding take_current pop_entry items length
  take_current-Served q k e h c found full =
      let (x, xs, front) = requests_front e full in
      (
        x,
        rest_of q k e xs,
        take_current_front q k e x xs c found front,
        rest_of-Served q k e x xs h found front,
      )

  seek-some :
      (q : FairQueue S T)
      → IsQueue q
      → q.total_len ≢ 0
      → (k : S) × (seek (seek_fuel q.queues) q.queues q.current_queue_key ≡ ok k)
  seek-some q h some_left =
      elim (Option-cases (find_ready (behind q.queues q.current_queue_key ++ q.queues))) [
        | inl e ↦ absurd (nothing (find_ready-++ (behind q.queues q.current_queue_key) q.queues) e)
        | inr (k, e) ↦
            (k, seek-rotation q.queues q.current_queue_key h.0 h.1 ∙ rw (rotation, e) refl)
      ]
    where
      nothing :
          find_ready (behind q.queues q.current_queue_key ++ q.queues)
            ≡ elim (find_ready (behind q.queues q.current_queue_key)) [
              | some k ↦ some k
              | none ↦ find_ready q.queues
            ]
          → ¬ (find_ready (behind q.queues q.current_queue_key ++ q.queues) ≡ none)
      nothing joined e = ground (arith, joined, e, ready_some q.queues (rw (sym h.2) some_left))

  current_ready :
      (q : FairQueue S T)
      → should_seek q ≡ false
      → (k : S) × (e : Entry T) × (q.current_queue_key ≡ some k)
        × (lookup k q.queues ≡ some e)
        × (entry_is_empty e ≡ false)
  unfolding should_seek
  current_ready q b = elim (Option-cases q.current_queue_key) [
    | inl c ↦ ground (arith, b, c)
    | inr (k, c) ↦ elim (Option-cases (lookup k q.queues)) [
      | inl found ↦ ground (arith, b, c, found)
      | inr (e, found) ↦ (k, e, c, found, ground (arith, b, c, found))
    ]
  ]

  -- A queue that has items serves the oldest item of one of its sources: `next` neither panics nor
  -- runs for ever, and the queue is the same for every other source, with one item less.
  pub next-Served :
      (q : FairQueue S T)
      → IsQueue q
      → q.total_len ≢ 0
      → (source : S) × (item : T) × (q' : FairQueue S T) × (next q ≡ ok (some (source, item), q'))
        × Served q source item q'
  unfolding next seek_next items
  next-Served q h some_left = elim (Bool-cases (should_seek q)) [
    | inl b ↦
        let (k, found_key) = seek-some q h some_left in
        let (e, found, full) =
          seek-ready (seek_fuel q.queues) q.queues q.current_queue_key k found_key in
        let sought : FairQueue S T = record q { current_queue_key = some k; counter = 0 } in
        let (x, q', taken, served) =
          take_current-Served sought k e (h.0, rw found refl, h.2, h.3) refl found full in
        (k, x, q', rw (next, b, seek_next, found_key) taken, served)
    | inr b ↦
        let (k, e, c, found, full) = current_ready q b in
        let (x, q', taken, served) = take_current-Served q k e h c found full in
        (k, x, q', rw (next, b) taken, served)
  ]
