-- ===== src/Transport/FairQueue/Rotation.antt =====
-- node/src/transport/fair_queue.rs: `seek_next` as a rotation over the keys.
use rsbanano_node.Prelude.{
  ℕ, suc, true, false, not, ◌+◌, ◌≡◌, refl, ◌∙◌, Option, none, some, List, [], ◌∷◌, ◌++◌,
  if◌then◌else◌, is_some, arith, Bool-cases, Option-cases, inl, inr,
}
use rsbanano_node.Prelude.Check.{Result, ok, err}
use rsbanano_node.Prelude.Lists.{length}
use rsbanano_node.Prelude.Order.{Ord, TreeMap, lookup, after, IsSorted}
use rsbanano_node.Prelude.Order.Walk.{after_step, after-first, range_from-after}
use rsbanano_node.Transport.FairQueue.{
  Stop, panicked, endless, Entry, entry_is_empty, seek, second_key, first_key, following, or_first,
}

abbrev pub more {ℓ} : {A : Type ℓ} → List A → ℕ → ℕ
more [] n = n
more (x ∷ xs) n = suc (more xs n)

pub more_sum {ℓ} : {A : Type ℓ} (xs : List A) (n : ℕ) → more xs n ≡ length xs + n
unfolding length
more_sum [] n = omega arith
more_sum (x ∷ xs) n = omega (arith, more_sum xs n)

module _ {S T : Type 0} ⦃o : Ord S⦄ where
  -- The first key whose queue has an item.
  abbrev pub find_ready : TreeMap S (Entry T) → Option S
  find_ready [] = none
  find_ready ((k, e) ∷ m) = if not (entry_is_empty e) then some k else find_ready m

  -- The pairs behind the current key.
  abbrev pub behind : TreeMap S (Entry T) → Option S → TreeMap S (Entry T)
  behind m none = []
  behind m (some c) = after c m

  -- The current key, if there is one, is a key of the map.
  abbrev pub IsPresent : TreeMap S (Entry T) → Option S → Type 0
  IsPresent m none = Unit
  IsPresent m (some c) = is_some (lookup c m) ≡ true

  -- The keys behind the current one, then all keys from the first.
  abbrev pub rotation : TreeMap S (Entry T) → Option S → Result Stop S
  rotation m current = elim (find_ready (behind m current ++ m)) [
    | some k ↦ ok k
    | none ↦ elim m [ [] ↦ err panicked | _ ∷ _ ↦ err endless ]
  ]

  second-first :
      (c : S) (e : Entry T) (r : TreeMap S (Entry T)) → second_key ((c, e) ∷ r) ≡ first_key r
  second-first c e [] = refl
  second-first c e ((k, d) ∷ r) = refl

  pub following-after :
      (m : TreeMap S (Entry T)) (c : S)
      → IsSorted m
      → is_some (lookup c m) ≡ true
      → following m (some c) ≡ first_key (after c m)
  following-after m c s h = elim (Option-cases (lookup c m)) [
    | inl e ↦ ground (arith, e)
    | inr (v, e) ↦ rw (range_from-after c v m s e) (second-first c v (after c m))
  ]

  pub seek_step :
      (m : TreeMap S (Entry T)) (current : Option S) (k : S) (e : Entry T) (fuel : ℕ)
      → or_first m (following m current) ≡ some k
      → lookup k m ≡ some e
      → seek (suc fuel) m current
        ≡ elim (entry_is_empty e) [ true ↦ seek fuel m (some k) | false ↦ ok k ]
  unfolding seek
  seek_step m current k e fuel h q = elim (Bool-cases (entry_is_empty e)) [
    | inl b ↦ rw (seek, h, q, b) refl
    | inr b ↦ rw (seek, h, q, b) refl
  ]

  seek_again :
      (m : TreeMap S (Entry T)) (c : S) (fuel : ℕ)
      → following m (some c) ≡ none
      → seek (suc fuel) m (some c) ≡ seek (suc fuel) m none
  unfolding seek
  seek_again m c fuel h = rw (seek, h) refl

  pub seek-behind :
      (m r : TreeMap S (Entry T)) (c : S) (fuel : ℕ)
      → IsSorted m
      → is_some (lookup c m) ≡ true
      → after c m ≡ r
      → seek (more r (suc fuel)) m (some c)
        ≡ elim (find_ready r) [ some k ↦ ok k | none ↦ seek (suc fuel) m none ]
  seek-behind m [] c fuel s h q = seek_again m c fuel (rw (following-after m c s h, q) refl)
  seek-behind m ((k, e) ∷ r) c fuel s h q =
      let (behind_k, found) = after_step c k e m r s q in
      let step =
        seek_step m (some c) k e (more r (suc fuel)) (rw (following-after m c s h, q) refl) found in
      elim (Bool-cases (entry_is_empty e)) [
        | inl b ↦ rw b (rw b at step ∙ seek-behind m r k fuel s (rw found refl) behind_k)
        | inr b ↦ rw b (rw b at step)
      ]

  pub seek-first :
      (k : S) (e : Entry T) (m : TreeMap S (Entry T)) (j : S) (fuel : ℕ)
      → IsSorted ((k, e) ∷ m)
      → find_ready ((k, e) ∷ m) ≡ some j
      → seek (suc (more m (suc fuel))) ((k, e) ∷ m) none ≡ ok j
  seek-first k e m j fuel s h =
      let (behind_k, found) = after-first k e m s.0 in
      let step = seek_step ((k, e) ∷ m) none k e (more m (suc fuel)) refl found in
      elim (Bool-cases (entry_is_empty e)) [
        | inl b ↦
            (rw b at step)
            ∙ rw (seek-behind ((k, e) ∷ m) m k fuel s (rw found refl) behind_k, rw b at h) refl
        | inr b ↦ (rw b at step) ∙ ground (arith, b, h)
      ]
