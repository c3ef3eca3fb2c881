-- ===== src/Prelude/Order/Walk.antt =====
-- The walk along the keys of a `BTreeMap`: what follows a key.
use rsbanano_node.Prelude.{
  ◌≡◌, refl, sym, ◌∙◌, none, some, [], ◌∷◌, arith, Bool-cases, inl, inr, true,
}
use mathlib.Core.Path.{subst}
use rsbanano_node.Prelude.Order.{
  Ord, TreeMap, lt_asym, lookup, range_from, after, IsAbove, IsAbove-lt, IsSorted, lookup-above,
}

module _ {ℓ κ} {K : Type ℓ} {V : Type κ} ⦃o : Ord K⦄ where
  after-above : (k : K) (m : TreeMap K V) → IsAbove k m → after k m ≡ m
  unfolding after
  after-above k [] a = refl
  after-above k ((j, w) ∷ m) a = rw a.0 refl

  range_from-above : (k : K) (m : TreeMap K V) → IsAbove k m → range_from k m ≡ m
  unfolding range_from
  range_from-above k [] a = refl
  range_from-above k ((j, w) ∷ m) a = rw (lt_asym k j a.0) refl

  pub after-first :
      (k : K) (v : V) (m : TreeMap K V)
      → IsAbove k m
      → (after k ((k, v) ∷ m) ≡ m) × (lookup k ((k, v) ∷ m) ≡ some v)
  unfolding after lookup
  after-first k v m a = (rw (o.lt_irrefl k) (after-above k m a), rw (o.lt_irrefl k) refl)

  after-IsAbove : (j c : K) (m : TreeMap K V) → IsAbove j m → IsAbove j (after c m)
  unfolding after
  after-IsAbove j c [] a = tt
  after-IsAbove j c ((i, w) ∷ m) a = ground (arith, after-IsAbove j c m a.1)

  head_above :
      (j k : K) (v : V) (m r : TreeMap K V) → m ≡ (k, v) ∷ r → IsAbove j m → o.lt j k ≡ true
  head_above j k v [] r h a = cc
  head_above j k v ((i, w) ∷ m) r h a = ground (arith, a.0)

  -- The first pair behind a key, and what is behind that.
  pub after_step :
      (c k : K) (v : V) (m r : TreeMap K V)
      → IsSorted m
      → after c m ≡ (k, v) ∷ r
      → (after k m ≡ r) × (lookup k m ≡ some v)
  unfolding after lookup
  after_step c k v [] r s h = cc
  after_step c k v ((j, w) ∷ m) r s h = elim (Bool-cases (o.lt c j)) [
    | inl e ↦ first_of (rw e at h)
    | inr e ↦
        let below = head_above j k v (after c m) r (rw e at h) (after-IsAbove j c m s.0) in
        rw (lt_asym j k below, below) (after_step c k v m r s.1 (rw e at h))
  ]
    where
      first_of :
          (j, w) ∷ m ≡ (k, v) ∷ r → (after k ((j, w) ∷ m) ≡ r) × (lookup k ((j, w) ∷ m) ≡ some v)
      first_of q = ground (arith, after-first j w m s.0, q)

  -- `range(key..)` starts with the key where the map has it.
  pub range_from-after :
      (c : K) (v : V) (m : TreeMap K V)
      → IsSorted m
      → lookup c m ≡ some v
      → range_from c m ≡ (c, v) ∷ after c m
  unfolding after lookup range_from
  range_from-after c v [] s h = cc
  range_from-after c v ((j, w) ∷ m) s h = elim (Bool-cases (o.lt j c)) [
    | inl e ↦ rw (e, lt_asym j c e) (range_from-after c v m s.1 (rw e at h))
    | inr e ↦ elim (Bool-cases (o.lt c j)) [
      | inl q ↦ absurd (absent (sym (lookup-above c m (IsAbove-lt c j m q s.0)) ∙ rw (e, q) at h))
      | inr q ↦
          let same = o.lt_total j c e q in
          rw (e, q) (ground (arith, same, after-above c m (subst (λ z. IsAbove z m) same s.0)))
    ]
  ]
    where
      absent : ¬ (none ≡ some v)
      absent q = cc
