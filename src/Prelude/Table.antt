-- ===== src/Prelude/Table.antt =====
-- A keyed table, as the database tables and the hash maps of the program are used: `put` replaces
-- the value of a key, and `del` is `none` where LMDB reports that the key is missing.
use Prim.Native.Nat.{ℕ, ◌+◌, ◌≤◌}
use mathlib.Core.Path.{◌≡◌, refl, ◌∙◌}
use mathlib.Core.Logic.{◌≢◌, ◌↔◌, inl, inr}
use mathlib.Core.Bool.{Bool, true, false}
use mathlib.Core.Option.{Option, none, some}
use mathlib.Core.List.{List, [], ◌∷◌}
use native.Mathlib.Omega.{arith}
use rsbanano_node.Prelude.Tests.{if◌then◌else◌, ◌==◌, ==_iff, Bool-cases, is_some}

pub record Eq {ℓ} (A : Type ℓ) : Type ℓ where
  pub beq : A → A → Bool
  pub beq_iff : (a b : A) → (beq a b ≡ true) ↔ (a ≡ b)

instance abbrev pub nat_eq : Eq ℕ
nat_eq = record { beq = ◌==◌; beq_iff = ==_iff }

pub beq_ne {ℓ} : {K : Type ℓ} ⦃e : Eq K⦄ (k j : K) → k ≢ j → e.beq k j ≡ false
beq_ne ⦃e⦄ k j ne = elim (Bool-cases (e.beq k j)) [
  | inl h ↦ absurd (ne ((e.beq_iff k j).0 h))
  | inr h ↦ h
]

abbrev pub Table {ℓ κ} : Type ℓ → Type κ → Type (ℓ ⊔ κ)
Table K V = List (K × V)

module _ {ℓ κ} {K : Type ℓ} {V : Type κ} ⦃e : Eq K⦄ where
  unfoldable pub get : K → Table K V → Option V
  get k [] = none
  get k ((j, v) ∷ t) = if e.beq j k then some v else get k t

  unfoldable pub put : K → V → Table K V → Table K V
  put k v [] = (k, v) ∷ []
  put k v ((j, w) ∷ t) = if e.beq j k then (k, v) ∷ t else (j, w) ∷ put k v t

  unfoldable pub erase : K → Table K V → Table K V
  erase k [] = []
  erase k ((j, w) ∷ t) = if e.beq j k then t else (j, w) ∷ erase k t

  -- `txn.delete(…)`, which fails on a missing key.
  unfoldable pub del : K → Table K V → Option (Table K V)
  del k t = if is_some (get k t) then some (erase k t) else none

  -- No key stands twice.
  abbrev pub IsUnique : Table K V → Type (ℓ ⊔ κ)
  IsUnique [] = Unit
  IsUnique ((k, v) ∷ t) = (get k t ≡ none) × IsUnique t

  pub get-put :
      (k j : K) (v : V) (t : Table K V)
      → get j (put k v t) ≡ (if e.beq k j then some v else get j t)
  unfolding get put
  get-put k j v [] = refl
  get-put k j v ((i, w) ∷ t) =
      ground (arith, e.beq_iff k j, e.beq_iff i k, e.beq_iff i j, get-put k j v t)

  pub get-put_self : (k : K) (v : V) (t : Table K V) → get k (put k v t) ≡ some v
  get-put_self k v t = rw (get-put k k v t, (e.beq_iff k k).1 refl)

  pub get-put_ne : (k j : K) (v : V) (t : Table K V) → k ≢ j → get j (put k v t) ≡ get j t
  get-put_ne k j v t ne = rw (get-put k j v t, beq_ne k j ne)

  pub get-erase_ne : (k j : K) (t : Table K V) → k ≢ j → get j (erase k t) ≡ get j t
  unfolding get erase
  get-erase_ne k j [] ne = refl
  get-erase_ne k j ((i, w) ∷ t) ne =
      ground (arith, e.beq_iff i k, e.beq_iff i j, beq_ne k j ne, get-erase_ne k j t ne)

  pub get-erase_self : (k : K) (t : Table K V) → IsUnique t → get k (erase k t) ≡ none
  unfolding get erase
  get-erase_self k [] u = refl
  get-erase_self k ((i, w) ∷ t) u = ground (arith, e.beq_iff i k, get-erase_self k t u.1)

  pub put-IsUnique : (k : K) (v : V) (t : Table K V) → IsUnique t → IsUnique (put k v t)
  unfolding get put
  put-IsUnique k v [] u = (refl, tt)
  put-IsUnique k v ((i, w) ∷ t) u =
      ground (arith, e.beq_iff i k, get-put k i v t, e.beq_iff k i, put-IsUnique k v t u.1)

  pub erase-IsUnique : (k : K) (t : Table K V) → IsUnique t → IsUnique (erase k t)
  unfolding get erase
  erase-IsUnique k [] u = tt
  erase-IsUnique k ((i, w) ∷ t) u = elim (Bool-cases (e.beq i k)) [
    | inl h ↦ rw h u.1
    | inr h ↦ rw h (get-erase_ne k i t (ne_of h) ∙ u.0, erase-IsUnique k t u.1)
  ]
    where
      ne_of : e.beq i k ≡ false → k ≢ i
      ne_of h q = ground (arith, e.beq_iff i k, q, h)

  -- The sum of a number over the values.
  unfoldable pub total : (V → ℕ) → Table K V → ℕ
  total f [] = 0
  total f ((k, v) ∷ t) = f v + total f t

  pub total-put :
      (f : V → ℕ) (k : K) (v old : V) (t : Table K V)
      → get k t ≡ some old
      → total f (put k v t) + f old ≡ total f t + f v
  unfolding get put total
  total-put f k v old [] h = cc
  total-put f k v old ((i, w) ∷ t) h = ground (arith, total-put f k v old t)

  pub total-put_new :
      (f : V → ℕ) (k : K) (v : V) (t : Table K V)
      → get k t ≡ none
      → total f (put k v t) ≡ total f t + f v
  unfolding get put total
  total-put_new f k v [] h = omega arith
  total-put_new f k v ((i, w) ∷ t) h = ground (arith, total-put_new f k v t)

  pub total-erase :
      (f : V → ℕ) (k : K) (old : V) (t : Table K V)
      → get k t ≡ some old
      → total f (erase k t) + f old ≡ total f t
  unfolding get erase total
  total-erase f k old [] h = cc
  total-erase f k old ((i, w) ∷ t) h = ground (arith, total-erase f k old t)

  pub total-ge : (f : V → ℕ) (k : K) (v : V) (t : Table K V) → get k t ≡ some v → f v ≤ total f t
  total-ge f k v t h = omega (arith, total-erase f k v t h)

  pub get-erase-none : (k j : K) (t : Table K V) → get j t ≡ none → get j (erase k t) ≡ none
  unfolding get erase
  get-erase-none k j [] h = refl
  get-erase-none k j ((i, w) ∷ t) h = ground (arith, get-erase-none k j t)

  pub total-le : (f g : V → ℕ) (t : Table K V) → ((v : V) → f v ≤ g v) → total f t ≤ total g t
  unfolding total
  total-le f g [] h = omega arith
  total-le f g ((i, w) ∷ t) h = omega (arith, h w, total-le f g t h)
