-- ===== src/Prelude/Order/Lookup.antt =====
-- Keys that are the same in their order, and the values of a map after a change.
use rsbanano_node.Prelude.{
  Bool, true, false, not, ◌&&◌, ◌≡◌, ◌≢◌, refl, none, some, if◌then◌else◌, arith, Bool-cases, inl,
  inr, ◌⊎◌, ◌∷◌,
}
use mathlib.Core.Path.{subst}
use rsbanano_node.Prelude.Order.{
  Ord, TreeMap, lookup, insert, remove, IsSorted, lookup-insert_self, lookup-insert_ne,
  lookup-remove_ne, lookup-remove_self, IsAbove, lookup-above,
}

module _ {K : Type 0} ⦃o : Ord K⦄ where
  abbrev pub same : K → K → Bool
  same a b = not (o.lt a b) && not (o.lt b a)

  pub same-true : (a b : K) → same a b ≡ true → a ≡ b
  same-true a b h = o.lt_total a b (ground arith) (ground arith)

  pub same-false : (a b : K) → same a b ≡ false → a ≢ b
  same-false a b h e = ground (arith, o.lt_irrefl a)

  pub same_refl : (a : K) → same a a ≡ true
  same_refl a = ground (arith, o.lt_irrefl a)

module _ {K V : Type 0} ⦃o : Ord K⦄ where
  pub lookup-insert :
      (k j : K) (v : V) (m : TreeMap K V)
      → lookup j (insert k v m) ≡ (if same k j then some v else lookup j m)
  lookup-insert k j v m = elim (Bool-cases (same k j)) [
    | inl b ↦
        rw b (
          subst (λ z. lookup z (insert k v m) ≡ some v) (same-true k j b)
            (lookup-insert_self k v m))
    | inr b ↦ rw b (lookup-insert_ne k j v m (same-false k j b))
  ]

  pub lookup-remove :
      (k j : K) (m : TreeMap K V)
      → IsSorted m
      → lookup j (remove k m) ≡ (if same k j then none else lookup j m)
  lookup-remove k j m s = elim (Bool-cases (same k j)) [
    | inl b ↦
        rw b
          (subst (λ z. lookup z (remove k m) ≡ none) (same-true k j b) (lookup-remove_self k m s))
    | inr b ↦ rw b (lookup-remove_ne k j m (same-false k j b))
  ]

  -- A key of the rest of a map is found behind its first pair.
  pub lookup-tail :
      (j k : K) (v : V) (m : TreeMap K V)
      → IsSorted ((j, v) ∷ m)
      → (lookup k ((j, v) ∷ m) ≡ lookup k m) ⊎ (lookup k m ≡ none)
  unfolding lookup
  lookup-tail j k v m sorted = elim (Bool-cases (o.lt j k)) [
    | inl b ↦ inl (rw b refl)
    | inr b ↦ elim (Bool-cases (o.lt k j)) [
      | inl g ↦ inl (rw (b, g) refl)
      | inr g ↦ inr (lookup-above k m (subst (λ z. IsAbove z m) (o.lt_total j k b g) sorted.0))
    ]
  ]
