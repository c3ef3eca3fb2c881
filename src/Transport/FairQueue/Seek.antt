-- ===== src/Transport/FairQueue/Seek.antt =====
-- node/src/transport/fair_queue.rs: where `seek_next` ends, and that its fuel is enough.
use rsbanano_node.Prelude.{
  ℕ, zero, suc, true, ◌-◌, ◌≤◌, ◌≡◌, refl, ◌∙◌, ap, Option, none, some, [], ◌∷◌, ◌++◌, arith,
  Bool-cases, Option-cases, inl, inr, ◌⊎◌,
}
use rsbanano_node.Prelude.Check.{ok, err}
use rsbanano_node.Prelude.Lists.{length}
use rsbanano_node.Prelude.Order.{Ord, TreeMap, lookup, after, IsSorted}
use rsbanano_node.Prelude.Order.Walk.{after_step, after-first}
use rsbanano_node.Transport.FairQueue.{
  endless, Entry, entry_is_empty, seek, seek_fuel, first_key, following, or_first,
}
use rsbanano_node.Transport.FairQueue.Rotation.{
  more, more_sum, find_ready, behind, IsPresent, rotation, following-after, seek_step, seek-behind,
  seek-first,
}

module _ {S T : Type 0} ⦃o : Ord S⦄ where
  pub find_ready-++ :
      (m r : TreeMap S (Entry T))
      → find_ready (m ++ r) ≡ elim (find_ready m) [ some k ↦ some k | none ↦ find_ready r ]
  find_ready-++ [] r = refl
  find_ready-++ ((k, e) ∷ m) r = elim (Bool-cases (entry_is_empty e)) [
    | inl b ↦ rw b (find_ready-++ m r)
    | inr b ↦ rw b refl
  ]

  find_ready-after :
      (c : S) (m : TreeMap S (Entry T)) → find_ready m ≡ none → find_ready (after c m) ≡ none
  unfolding after
  find_ready-after c [] h = refl
  find_ready-after c ((k, e) ∷ m) h = ground (arith, find_ready-after c m)

  pub ready-lookup :
      (k : S) (e : Entry T) (m : TreeMap S (Entry T))
      → find_ready m ≡ none
      → lookup k m ≡ some e
      → entry_is_empty e ≡ true
  unfolding lookup
  ready-lookup k e [] h q = cc
  ready-lookup k e ((j, d) ∷ m) h q = ground (arith, ready-lookup k e m)

  length-after : (c : S) (m : TreeMap S (Entry T)) → length (after c m) ≤ length m
  unfolding after length
  length-after c [] = omega arith
  length-after c ((k, e) ∷ m) = ground (arith, length-after c m)

  first_found :
      (m r : TreeMap S (Entry T)) (c : S)
      → IsSorted m
      → after c m ≡ r
      → (first_key r ≡ none)
        ⊎ ((k : S) × (e : Entry T) × (first_key r ≡ some k) × (lookup k m ≡ some e))
  first_found m [] c s q = inl refl
  first_found m ((k, e) ∷ r) c s q = inr (k, e, refl, (after_step c k e m r s q).1)

  -- The key that a turn of the loop looks at.
  next_key :
      (k : S) (e : Entry T) (m : TreeMap S (Entry T)) (current : Option S)
      → IsSorted ((k, e) ∷ m)
      → IsPresent ((k, e) ∷ m) current
      → (j : S) × (d : Entry T) × (or_first ((k, e) ∷ m) (following ((k, e) ∷ m) current) ≡ some j)
        × (lookup j ((k, e) ∷ m) ≡ some d)
  next_key k e m none s p = (k, e, refl, (after-first k e m s.0).1)
  next_key k e m (some c) s p =
      let moved = following-after ((k, e) ∷ m) c s p in
      elim (first_found ((k, e) ∷ m) (after c ((k, e) ∷ m)) c s refl) [
        | inl h ↦ (k, e, rw (moved, h) refl, (after-first k e m s.0).1)
        | inr (j, d, h, found) ↦ (j, d, rw (moved, h) refl, found)
      ]

  seek-endless :
      (fuel : ℕ) (k : S) (e : Entry T) (m : TreeMap S (Entry T)) (current : Option S)
      → IsSorted ((k, e) ∷ m)
      → IsPresent ((k, e) ∷ m) current
      → find_ready ((k, e) ∷ m) ≡ none
      → seek fuel ((k, e) ∷ m) current ≡ err endless
  unfolding seek
  seek-endless zero k e m current s p h = refl
  seek-endless (suc fuel) k e m current s p h =
      let (j, d, moved, found) = next_key k e m current s p in
      (rw (ready-lookup j d ((k, e) ∷ m) h found) at (seek_step _ current j d fuel moved found))
      ∙ seek-endless fuel k e m (some j) s (rw found refl) h

  seek-found :
      (k : S) (e : Entry T) (m : TreeMap S (Entry T)) (current : Option S) (j : S) (spare : ℕ)
      → IsSorted ((k, e) ∷ m)
      → IsPresent ((k, e) ∷ m) current
      → find_ready ((k, e) ∷ m) ≡ some j
      → seek (more (behind ((k, e) ∷ m) current) (suc (more m (suc spare)))) ((k, e) ∷ m) current
        ≡ elim (find_ready (behind ((k, e) ∷ m) current)) [ some i ↦ ok i | none ↦ ok j ]
  seek-found k e m none j spare s p h = seek-first k e m j spare s h
  seek-found k e m (some c) j spare s p h =
      seek-behind ((k, e) ∷ m) _ c (more m (suc spare)) s p refl
      ∙ elim (Option-cases (find_ready (after c ((k, e) ∷ m)))) [
        | inl q ↦ rw q (seek-first k e m j spare s h)
        | inr (i, q) ↦ rw q refl
      ]

  length-behind :
      (m : TreeMap S (Entry T)) (current : Option S) → length (behind m current) ≤ length m
  unfolding length
  length-behind m none = omega arith
  length-behind m (some c) = length-after c m

  fuel_split :
      (k : S) (e : Entry T) (m : TreeMap S (Entry T)) (current : Option S)
      → seek_fuel ((k, e) ∷ m)
        ≡ more
            (behind ((k, e) ∷ m) current)
            (suc (more m (suc (length ((k, e) ∷ m) - length (behind ((k, e) ∷ m) current)))))
  unfolding length
  fuel_split k e m current =
      let spare = length ((k, e) ∷ m) - length (behind ((k, e) ∷ m) current) in
      omega (
        arith,
        length-behind ((k, e) ∷ m) current,
        more_sum m (suc spare),
        more_sum (behind ((k, e) ∷ m) current) (suc (more m (suc spare))),
      )

  find_ready-behind :
      (m : TreeMap S (Entry T)) (current : Option S)
      → find_ready m ≡ none
      → find_ready (behind m current) ≡ none
  find_ready-behind m none h = refl
  find_ready-behind m (some c) h = find_ready-after c m h

  -- In a queue whose keys are in order, and whose current key is one of them if there is one,
  -- the loop of `seek_next` is the rotation: it ends at the first key with an item that
  -- follows the current one, from the first key on after the last. It panics where there is
  -- no key, and runs for ever where no key has an item; its fuel, two rounds and one turn, is
  -- spent in this case only.
  pub seek-rotation :
      (m : TreeMap S (Entry T)) (current : Option S)
      → IsSorted m
      → IsPresent m current
      → seek (seek_fuel m) m current ≡ rotation m current
  unfolding seek length lookup
  seek-rotation [] none s p = refl
  seek-rotation [] (some c) s p = cc
  seek-rotation ((k, e) ∷ m) current s p =
      let all = (k, e) ∷ m in
      elim (Option-cases (find_ready all)) [
        | inl h ↦
            seek-endless (seek_fuel all) k e m current s p h
            ∙ rw
                (
                  rotation,
                  find_ready-++ (behind all current) all,
                  find_ready-behind all current h,
                  h,
                )
                refl
        | inr (j, h) ↦
            ap (λ n. seek n all current) (fuel_split k e m current)
            ∙ seek-found k e m current j _ s p h
            ∙ elim (Option-cases (find_ready (behind all current))) [
              | inl q ↦ rw (rotation, find_ready-++ (behind all current) all, q, h) refl
              | inr (i, q) ↦ rw (rotation, find_ready-++ (behind all current) all, q) refl
            ]
      ]
