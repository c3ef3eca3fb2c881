-- ===== src/Prelude/Order.antt =====
-- A total order of keys, as `Ord` promises it, and maps in the order of their keys (`BTreeMap`).
pub mod Walk
pub mod Lookup
use Prim.Native.Nat.{ℕ, ◌+◌, ◌-◌, ◌≤◌, suc}
use mathlib.Core.Path.{◌≡◌, refl, subst, sym, ◌∙◌}
use mathlib.Core.Logic.{◌≢◌, ◌↔◌, ◌⊎◌, inl, inr}
use mathlib.Core.Bool.{Bool, true, false}
use mathlib.Core.Option.{Option, none, some}
use mathlib.Core.List.{List, [], ◌∷◌}
use native.Mathlib.Omega.{arith}
use rsbanano_node.Prelude.Tests.{if◌then◌else◌, ltb, Bool-cases, is_some}

true_ne_false : ¬ (true ≡ false)
true_ne_false h = ground arith

pub record Ord {ℓ} (A : Type ℓ) : Type ℓ where
  pub lt : A → A → Bool
  pub lt_irrefl : (a : A) → lt a a ≡ false
  pub lt_trans : (a b c : A) → lt a b ≡ true → lt b c ≡ true → lt a c ≡ true
  pub lt_total : (a b : A) → lt a b ≡ false → lt b a ≡ false → a ≡ b

pub lt_asym {ℓ} : {K : Type ℓ} ⦃o : Ord K⦄ (j k : K) → o.lt j k ≡ true → o.lt k j ≡ false
lt_asym ⦃o⦄ j k h = elim (Bool-cases (o.lt k j)) [
  | inl e ↦ absurd (true_ne_false (sym (o.lt_trans j k j h e) ∙ o.lt_irrefl j))
  | inr e ↦ e
]

pub ltb_irrefl : (a : ℕ) → ltb a a ≡ false
ltb_irrefl a = ground arith

pub ltb_trans : (a b c : ℕ) → ltb a b ≡ true → ltb b c ≡ true → ltb a c ≡ true
ltb_trans a b c h k = ground arith

pub ltb_total : (a b : ℕ) → ltb a b ≡ false → ltb b a ≡ false → a ≡ b
ltb_total a b h k = ground arith

instance abbrev pub nat_ord : Ord ℕ
nat_ord = record { lt = ltb; lt_irrefl = ltb_irrefl; lt_trans = ltb_trans; lt_total = ltb_total }

-- The pairs of a map, in the order of their keys.
abbrev pub TreeMap {ℓ κ} : Type ℓ → Type κ → Type (ℓ ⊔ κ)
TreeMap K V = List (K × V)

module _ {ℓ κ} {K : Type ℓ} {V : Type κ} ⦃o : Ord K⦄ where
  unfoldable pub lookup : K → TreeMap K V → Option V
  lookup k [] = none
  lookup k ((j, v) ∷ m) = if o.lt j k then lookup k m else if o.lt k j then lookup k m else some v

  unfoldable pub insert : K → V → TreeMap K V → TreeMap K V
  insert k v [] = (k, v) ∷ []
  insert k v ((j, w) ∷ m) =
      if o.lt j k
      then (j, w) ∷ insert k v m
      else if o.lt k j
      then (k, v) ∷ (j, w) ∷ m
      else (k, v) ∷ m

  unfoldable pub remove : K → TreeMap K V → TreeMap K V
  remove k [] = []
  remove k ((j, w) ∷ m) =
      if o.lt j k then (j, w) ∷ remove k m else if o.lt k j then (j, w) ∷ remove k m else m

  -- The pairs from a key on: `range(key..)`.
  unfoldable pub range_from : K → TreeMap K V → TreeMap K V
  range_from k [] = []
  range_from k ((j, w) ∷ m) = if o.lt j k then range_from k m else (j, w) ∷ m

  -- The pairs behind a key.
  unfoldable pub after : K → TreeMap K V → TreeMap K V
  after k [] = []
  after k ((j, w) ∷ m) = if o.lt k j then (j, w) ∷ m else after k m

  abbrev pub IsAbove : K → TreeMap K V → Type 0
  IsAbove k [] = Unit
  IsAbove k ((j, w) ∷ m) = (o.lt k j ≡ true) × IsAbove k m

  abbrev pub IsSorted : TreeMap K V → Type 0
  IsSorted [] = Unit
  IsSorted ((k, v) ∷ m) = IsAbove k m × IsSorted m

  pub IsAbove-lt : (j k : K) (m : TreeMap K V) → o.lt j k ≡ true → IsAbove k m → IsAbove j m
  IsAbove-lt j k [] h a = tt
  IsAbove-lt j k ((i, w) ∷ m) h a = (o.lt_trans j k i h a.0, IsAbove-lt j k m h a.1)

  pub lookup-above : (k : K) (m : TreeMap K V) → IsAbove k m → lookup k m ≡ none
  unfolding lookup
  lookup-above k [] a = refl
  lookup-above k ((j, w) ∷ m) a = rw (lt_asym k j a.0, a.0) (lookup-above k m a.1)

  pub lookup-insert_self : (k : K) (v : V) (m : TreeMap K V) → lookup k (insert k v m) ≡ some v
  unfolding lookup insert
  lookup-insert_self k v [] = rw (o.lt_irrefl k) refl
  lookup-insert_self k v ((j, w) ∷ m) = ground (arith, o.lt_irrefl k, lookup-insert_self k v m)

  pub lookup-insert_ne :
      (k j : K) (v : V) (m : TreeMap K V) → k ≢ j → lookup j (insert k v m) ≡ lookup j m
  unfolding lookup insert
  lookup-insert_ne k j v [] ne = ground (arith, o.lt_total k j)
  lookup-insert_ne k j v ((i, w) ∷ m) ne =
      ground (arith, o.lt_total k j, o.lt_total i k, lookup-insert_ne k j v m ne)

  pub lookup-remove_ne : (k j : K) (m : TreeMap K V) → k ≢ j → lookup j (remove k m) ≡ lookup j m
  unfolding lookup remove
  lookup-remove_ne k j [] ne = refl
  lookup-remove_ne k j ((i, w) ∷ m) ne =
      ground (arith, o.lt_total i k, o.lt_total i j, lookup-remove_ne k j m ne)

  pub insert-IsAbove :
      (j k : K) (v : V) (m : TreeMap K V) → o.lt j k ≡ true → IsAbove j m → IsAbove j (insert k v m)
  unfolding insert
  insert-IsAbove j k v [] h a = (h, tt)
  insert-IsAbove j k v ((i, w) ∷ m) h a = ground (arith, insert-IsAbove j k v m h a.1)

  pub insert-IsSorted : (k : K) (v : V) (m : TreeMap K V) → IsSorted m → IsSorted (insert k v m)
  unfolding insert
  insert-IsSorted k v [] s = (tt, tt)
  insert-IsSorted k v ((j, w) ∷ m) s = elim (Bool-cases (o.lt j k)) [
    | inl h ↦ rw h (insert-IsAbove j k v m h s.0, insert-IsSorted k v m s.1)
    | inr h ↦ elim (Bool-cases (o.lt k j)) [
      | inl e ↦ rw (h, e) ((e, IsAbove-lt k j m e s.0), s)
      | inr e ↦ rw (h, e) (subst (λ z. IsAbove z m) (o.lt_total j k h e) s.0, s.1)
    ]
  ]

  pub remove-IsAbove : (j k : K) (m : TreeMap K V) → IsAbove j m → IsAbove j (remove k m)
  unfolding remove
  remove-IsAbove j k [] a = tt
  remove-IsAbove j k ((i, w) ∷ m) a = ground (arith, remove-IsAbove j k m a.1)

  pub remove-IsSorted : (k : K) (m : TreeMap K V) → IsSorted m → IsSorted (remove k m)
  unfolding remove
  remove-IsSorted k [] s = tt
  remove-IsSorted k ((j, w) ∷ m) s =
      ground (arith, remove-IsAbove j k m s.0, remove-IsSorted k m s.1)

  pub lookup-remove_self : (k : K) (m : TreeMap K V) → IsSorted m → lookup k (remove k m) ≡ none
  unfolding lookup remove
  lookup-remove_self k [] s = refl
  lookup-remove_self k ((j, w) ∷ m) s = elim (Bool-cases (o.lt j k)) [
    | inl h ↦ rw h (rw h (lookup-remove_self k m s.1))
    | inr h ↦ elim (Bool-cases (o.lt k j)) [
      | inl e ↦ rw (h, e) (rw (h, e) (lookup-remove_self k m s.1))
      | inr e ↦ rw (h, e) (lookup-above k m (subst (λ z. IsAbove z m) (o.lt_total j k h e) s.0))
    ]
  ]
