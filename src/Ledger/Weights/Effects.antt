-- ===== src/Ledger/Weights/Effects.antt =====
-- What the updates do to the weight of each representative, in the store and in the cache.
use rsbanano_node.Prelude.{
  ◌≡◌, ◌<◌, ◌+◌, ◌%◌, false, none, some, Option, arith, ltb, ◌||◌, ◌==◌, if◌then◌else◌, unwrap_or,
  Option-cases, Bool-cases, inl, inr, refl, ==_iff,
}
use mathlib.Core.Path.{subst}
use rsbanano_node.Prelude.Table.{
  Table, IsUnique, get, del, nat_eq, get-put, get-erase_ne, get-erase_self, put-IsUnique,
  erase-IsUnique,
}
use rsbanano_node.Prelude.Word.{u128_mod}
use rsbanano_node.Core.Types.{PublicKey, is_zero}
use rsbanano_node.Core.Amount.{Amount, wrapping_add}
use rsbanano_node.Ledger.Weights.{
  Weights, stored_weight, put_store, put_cache, representation_add, add_two,
  representation_add_dual,
}

-- What the cache holds for a weight.
abbrev pub cache_entry : Amount → Amount → Option Amount
cache_entry min_weight weight =
    if ltb weight min_weight || is_zero weight then none else some weight

-- The cache holds the weights of the store that are not below its minimum.
pub record IsConsistent (w : Weights) : Type 0 where
  pub store_unique : IsUnique w.store
  pub cache_unique : IsUnique w.weight_cache
  pub in_range : (r : PublicKey) → stored_weight r w < u128_mod
  pub cached : (r : PublicKey) → get r w.weight_cache ≡ cache_entry w.min_weight (stored_weight r w)

put_store-get :
    (t t' : Table PublicKey Amount) (rep r : PublicKey) (new : Amount)
    → IsUnique t
    → put_store t rep (unwrap_or (get rep t) 0) new ≡ some t'
    → unwrap_or (get r t') 0 ≡ (if rep == r then new else unwrap_or (get r t) 0)
unfolding put_store del
put_store-get t t' rep r new u h = elim (Bool-cases (rep == r)) [
  | inl q ↦ ground (arith, get-put rep r new t, get-erase_self rep t u)
  | inr q ↦ ground (arith, get-put rep r new t, get-erase_ne rep r t (λ z. ground arith))
]

put_store-IsUnique :
    (t t' : Table PublicKey Amount) (rep : PublicKey) (previous new : Amount)
    → IsUnique t
    → put_store t rep previous new ≡ some t'
    → IsUnique t'
unfolding put_store del
put_store-IsUnique t t' rep previous new u h =
    ground (arith, put-IsUnique rep new t u, erase-IsUnique rep t u)

put_cache-get :
    (t : Table PublicKey Amount) (min_weight : Amount) (rep r : PublicKey) (new : Amount)
    → IsUnique t
    → get r (put_cache min_weight t rep new)
      ≡ (if rep == r then cache_entry min_weight new else get r t)
unfolding put_cache
put_cache-get t min_weight rep r new u = elim (Bool-cases (rep == r)) [
  | inl q ↦ ground (arith, get-put rep r new t, get-erase_self rep t u)
  | inr q ↦ ground (arith, get-put rep r new t, get-erase_ne rep r t (λ z. ground arith))
]

put_cache-IsUnique :
    (t : Table PublicKey Amount) (min_weight : Amount) (rep : PublicKey) (new : Amount)
    → IsUnique t
    → IsUnique (put_cache min_weight t rep new)
unfolding put_cache
put_cache-IsUnique t min_weight rep new u =
    ground (arith, put-IsUnique rep new t u, erase-IsUnique rep t u)

abbrev pub share : PublicKey → PublicKey → Amount → Amount
share rep r amount = if rep == r then amount else 0

-- A consistent record, whose weights are those of another with the shares added.
pub record Added (w w' : Weights) (added : PublicKey → Amount) : Type 0 where
  pub consistent : IsConsistent w'
  pub min_kept : w'.min_weight ≡ w.min_weight
  pub weight : (r : PublicKey) → stored_weight r w' ≡ (stored_weight r w + added r) % u128_mod

-- One entry of the store and of the cache is set.
abbrev set_weight : Weights → PublicKey → Amount → Table PublicKey Amount → Weights
set_weight w rep new store = record w {
  store = store;
  weight_cache = put_cache w.min_weight w.weight_cache rep new;
}

module _ (w : Weights) (rep : PublicKey) (new : Amount) (t : Table PublicKey Amount)
    (k : IsConsistent w) (e : put_store w.store rep (stored_weight rep w) new ≡ some t) where
  set_weight_at :
      (r : PublicKey)
      → stored_weight r (set_weight w rep new t) ≡ (if rep == r then new else stored_weight r w)
  set_weight_at r = put_store-get w.store t rep r new k.store_unique e

  set_weight-IsConsistent : new < u128_mod → IsConsistent (set_weight w rep new t)
  set_weight-IsConsistent b = record {
    store_unique = put_store-IsUnique w.store t rep (stored_weight rep w) new k.store_unique e;
    cache_unique = put_cache-IsUnique w.weight_cache w.min_weight rep new k.cache_unique;
    in_range = λ r. ground (arith, set_weight_at r, k.in_range r);
    cached = λ r. ground (
      arith,
      set_weight_at r,
      k.cached r,
      put_cache-get w.weight_cache w.min_weight rep r new k.cache_unique,
    );
  }

  set_weight-Added :
      (amount : Amount)
      → new ≡ (stored_weight rep w + amount) % u128_mod
      → Added w (set_weight w rep new t) (λ r. share rep r amount)
  set_weight-Added amount q = record {
    consistent = set_weight-IsConsistent (omega (arith, q));
    min_kept = refl;
    weight = λ r. ground (arith, set_weight_at r, k.in_range r);
  }

pub representation_add-Added :
    (w w' : Weights) (rep : PublicKey) (amount : Amount)
    → IsConsistent w
    → representation_add w rep amount ≡ some w'
    → Added w w' (λ r. share rep r amount)
unfolding representation_add wrapping_add
representation_add-Added w w' rep amount k h =
    let new = (stored_weight rep w + amount) % u128_mod in
    elim (Option-cases (put_store w.store rep (stored_weight rep w) new)) [
      | inl e ↦ ground arith
      | inr (t, e) ↦
          subst (λ z. Added w z (λ r. share rep r amount)) (ground arith)
            (set_weight-Added w rep new t k e amount refl)
    ]

add_two-Added :
    (w w' : Weights) (rep_1 : PublicKey) (amount_1 : Amount) (rep_2 : PublicKey) (amount_2 : Amount)
    → IsConsistent w
    → (rep_1 == rep_2) ≡ false
    → add_two w rep_1 amount_1 rep_2 amount_2 ≡ some w'
    → Added w w' (λ r. share rep_1 r amount_1 + share rep_2 r amount_2)
unfolding add_two wrapping_add
add_two-Added w w' rep_1 amount_1 rep_2 amount_2 k ne h =
    let new_1 = (stored_weight rep_1 w + amount_1) % u128_mod in
    let new_2 = (stored_weight rep_2 w + amount_2) % u128_mod in
    elim (Option-cases (put_store w.store rep_1 (stored_weight rep_1 w) new_1)) [
      | inl e ↦ ground arith
      | inr (t, e) ↦
          let w1 = set_weight w rep_1 new_1 t in
          let first = set_weight-Added w rep_1 new_1 t k e amount_1 refl in
          let same : stored_weight rep_2 w1 ≡ stored_weight rep_2 w =
            ground (arith, set_weight_at w rep_1 new_1 t k e rep_2) in
          elim (Option-cases (put_store t rep_2 (stored_weight rep_2 w) new_2)) [
            | inl e2 ↦ ground arith
            | inr (t2, e2) ↦
                let second =
                  set_weight-Added w1 rep_2 new_2 t2 first.consistent (rw same e2) amount_2
                    (rw same refl) in
                subst (λ z. Added w z (λ r. share rep_1 r amount_1 + share rep_2 r amount_2))
                  (ground arith)
                  (record {
                    consistent = second.consistent;
                    min_kept = refl;
                    weight = λ r. omega (arith, first.weight r, second.weight r);
                  })
          ]
    ]

-- Two shares at the same representative are added together.
same_share :
    (w w' : Weights) (rep : PublicKey) (a b : Amount)
    → Added w w' (λ r. share rep r ((a + b) % u128_mod))
    → Added w w' (λ r. share rep r a + share rep r b)
same_share w w' rep a b x = record {
  consistent = x.consistent;
  min_kept = x.min_kept;
  weight = λ r. ground (arith, x.weight r);
}

pub representation_add_dual-Added :
    (w w' : Weights) (rep_1 : PublicKey) (amount_1 : Amount) (rep_2 : PublicKey) (amount_2 : Amount)
    → IsConsistent w
    → representation_add_dual w rep_1 amount_1 rep_2 amount_2 ≡ some w'
    → Added w w' (λ r. share rep_1 r amount_1 + share rep_2 r amount_2)
unfolding representation_add_dual wrapping_add
representation_add_dual-Added w w' rep_1 amount_1 rep_2 amount_2 k h =
    elim (Bool-cases (rep_1 == rep_2)) [
      | inl q ↦
          let same : rep_1 ≡ rep_2 = (==_iff rep_1 rep_2).0 q in
          subst (λ z. Added w w' (λ r. share rep_1 r amount_1 + share z r amount_2)) same
            (same_share w w' rep_1 amount_1 amount_2 (
              representation_add-Added w w' rep_1 ((amount_1 + amount_2) % u128_mod) k
                (ground arith)))
      | inr q ↦ add_two-Added w w' rep_1 amount_1 rep_2 amount_2 k q (ground arith)
    ]
