-- ===== src/Transport/FairQueue/Shape.antt =====
-- node/src/transport/fair_queue.rs: the invariant of the queue, kept by `push` and `remove`.
use rsbanano_node.Prelude.{
  ℕ, ◌+◌, ◌<◌, ◌≡◌, ◌≢◌, refl, sym, ◌∙◌, Option, none, some, List, [], ◌∷◌, ◌++◌, ltb,
  if◌then◌else◌, arith, Bool-cases, Option-cases, inl, inr, map_or,
}
use rsbanano_node.Prelude.Word.{u64_mod}
use rsbanano_node.Prelude.Lists.{length, length-++}
use rsbanano_node.Prelude.Order.{
  Ord, TreeMap, lookup, insert, remove, IsSorted, lookup-above, IsAbove-lt, lookup-insert_self,
  lookup-insert_ne, lookup-remove_ne, lookup-remove_self, insert-IsSorted, remove-IsSorted,
}
use rsbanano_node.Transport.FairQueue.{
  Entry, FairQueue, entry_len, push_entry, entry, sum_len, push, remove_queue, queue_len, new_queue,
}
use rsbanano_node.Transport.FairQueue.Rotation.{IsPresent}

module _ {T : Type 0} where
  pub entry_len-push_entry :
      (e : Entry T) (item : T)
      → entry_len (push_entry e item).1 ≡ entry_len e + (if (push_entry e item).0 then 1 else 0)
  unfolding push_entry length
  entry_len-push_entry e item = ground (arith, length-++ e.requests (item ∷ []))

module _ {S T : Type 0} ⦃o : Ord S⦄ where
  -- The keys are in order, the current key is one of them, and `total_len` counts the items.
  abbrev pub IsQueue : FairQueue S T → Type 0
  IsQueue q =
      IsSorted q.queues
      × IsPresent q.queues q.current_queue_key
      × (q.total_len ≡ sum_len q.queues)
      × (q.total_len < u64_mod)

  -- The items that wait for a source.
  unfoldable pub items : FairQueue S T → S → List T
  items q source = map_or (lookup source q.queues) [] (λ e. e.requests)

  pub sum_len-insert :
      (k : S) (e d : Entry T) (m : TreeMap S (Entry T))
      → IsSorted m
      → lookup k m ≡ some d
      → sum_len (insert k e m) + entry_len d ≡ sum_len m + entry_len e
  unfolding lookup insert
  sum_len-insert k e d [] s h = cc
  sum_len-insert k e d ((j, w) ∷ m) s h = elim (Bool-cases (o.lt j k)) [
    | inl b ↦ ground (arith, b, sum_len-insert k e d m s.1)
    | inr b ↦ elim (Bool-cases (o.lt k j)) [
      | inl c ↦ absurd (absent (sym (lookup-above k m (IsAbove-lt k j m c s.0)) ∙ rw (b, c) at h))
      | inr c ↦ ground (arith, b, c)
    ]
  ]
    where
      absent : ¬ (none ≡ some d)
      absent q = cc

  pub sum_len-insert_new :
      (k : S) (e : Entry T) (m : TreeMap S (Entry T))
      → lookup k m ≡ none
      → sum_len (insert k e m) ≡ sum_len m + entry_len e
  unfolding lookup insert
  sum_len-insert_new k e [] h = omega arith
  sum_len-insert_new k e ((j, w) ∷ m) h = ground (arith, sum_len-insert_new k e m)

  pub sum_len-remove :
      (k : S) (d : Entry T) (m : TreeMap S (Entry T))
      → lookup k m ≡ some d
      → sum_len (remove k m) + entry_len d ≡ sum_len m
  unfolding lookup remove
  sum_len-remove k d [] h = cc
  sum_len-remove k d ((j, w) ∷ m) h = ground (arith, sum_len-remove k d m)

  pub insert-IsPresent :
      (k : S) (e : Entry T) (m : TreeMap S (Entry T)) (current : Option S)
      → IsPresent m current
      → IsPresent (insert k e m) current
  unfolding lookup
  insert-IsPresent k e m none p = tt
  insert-IsPresent k e m (some c) p =
      ground (arith, lookup-insert_self k e m, lookup-insert_ne k c e m)

  sum_len-entry :
      (q : FairQueue S T) (source : S) (e : Entry T)
      → IsSorted q.queues
      → sum_len (insert source e q.queues) + entry_len (entry q source)
        ≡ sum_len q.queues + entry_len e
  unfolding length
  sum_len-entry q source e s = elim (Option-cases (lookup source q.queues)) [
    | inl h ↦ rw h (omega (arith, sum_len-insert_new source e q.queues h))
    | inr (d, h) ↦ rw h (sum_len-insert source e d q.queues s h)
  ]

  pub push-IsQueue :
      (q : FairQueue S T) (source : S) (item : T)
      → IsQueue q
      → q.total_len + 1 < u64_mod
      → IsQueue (push q source item).1
  unfolding push
  push-IsQueue q source item h room =
      let pushed = (push_entry (entry q source) item).1 in
      let len = entry_len-push_entry (entry q source) item in
      let sum = sum_len-entry q source pushed h.0 in
      (
        insert-IsSorted source pushed q.queues h.0,
        insert-IsPresent source pushed q.queues q.current_queue_key h.1,
        ground (arith, len, sum),
        ground (arith, len, sum),
      )

  -- The items of a source after a push.
  pub items-push :
      (q : FairQueue S T) (source : S) (item : T)
      → items (push q source item).1 source ≡ (
          if ltb (queue_len q source) (entry q source).max_size
          then items q source ++ item ∷ []
          else items q source)
  unfolding push items push_entry queue_len length
  items-push q source item = elim (Option-cases (lookup source q.queues)) [
    | inl h ↦ rw (h, lookup-insert_self) (ground (arith, h))
    | inr (d, h) ↦ ground (arith, h, lookup-insert_self source (push_entry d item).1 q.queues)
  ]

  pub items-push_ne :
      (q : FairQueue S T) (source other : S) (item : T)
      → source ≢ other
      → items (push q source item).1 other ≡ items q other
  unfolding push items
  items-push_ne q source other item ne =
      rw (lookup-insert_ne source other (push_entry (entry q source) item).1 q.queues ne) refl

  pub remove_queue-IsQueue :
      (q : FairQueue S T) (key : S) → IsQueue q → IsQueue (remove_queue q key)
  unfolding remove_queue
  remove_queue-IsQueue q key h = elim (Option-cases (lookup key q.queues)) [
    | inl e ↦ rw (remove_queue, e) h
    | inr (d, e) ↦
        let sum = sum_len-remove key d q.queues e in
        rw (remove_queue, e)
          (
            remove-IsSorted key q.queues h.0,
            tt,
            omega (arith, sum, h.2, h.3),
            omega (arith, sum, h.2, h.3),
          )
  ]

  pub items-remove_queue :
      (q : FairQueue S T) (key : S) → IsSorted q.queues → items (remove_queue q key) key ≡ []
  unfolding remove_queue items
  items-remove_queue q key s = elim (Option-cases (lookup key q.queues)) [
    | inl e ↦ rw (items, remove_queue, e, e) refl
    | inr (d, e) ↦ rw (items, remove_queue, e, lookup-remove_self key q.queues s) refl
  ]

  pub items-remove_queue_ne :
      (q : FairQueue S T) (key other : S)
      → key ≢ other
      → items (remove_queue q key) other ≡ items q other
  unfolding remove_queue items
  items-remove_queue_ne q key other ne = elim (Option-cases (lookup key q.queues)) [
    | inl e ↦ rw (items, remove_queue, e) refl
    | inr (d, e) ↦ rw (items, remove_queue, e, lookup-remove_ne key other q.queues ne) refl
  ]

pub new_queue-IsQueue :
    {S : Type 0} (T : Type 0) ⦃o : Ord S⦄ (max_size_query priority_query : S → ℕ)
    → IsQueue (new_queue {T = T} max_size_query priority_query)
unfolding new_queue
new_queue-IsQueue T max_size_query priority_query = (tt, tt, refl, omega arith)
