-- ===== src/Prelude/Index.antt =====
-- Indexes: a map from a key to the list of the values that have it, as the containers of the program
-- keep beside their entries. A key without values is not in the map.
pub mod Entries
use rsbanano_node.Prelude.{
  ℕ, Bool, true, false, not, ◌&&◌, ◌||◌, ◌+◌, ◌≤◌, ◌≡◌, refl, sym, ◌∙◌, ap, Option, none, some,
  List, [], ◌∷◌, ◌++◌, ltb, ◌==◌, if◌then◌else◌, unwrap_or, arith, Bool-cases, Option-cases, inl,
  inr,
}
use mathlib.Core.Path.{subst}
use rsbanano_node.Prelude.Lists.{length}
use rsbanano_node.Prelude.Order.Lookup.{same, same-true, same-false, same_refl}
use rsbanano_node.Prelude.Order.{
  Ord, TreeMap, lookup, insert, remove, IsSorted, lookup-insert_self, lookup-insert_ne,
  lookup-remove_ne, lookup-remove_self, insert-IsSorted, remove-IsSorted,
}

module _ {V : Type 0} ⦃e : Ord V⦄ where
  abbrev pub count : V → List V → ℕ
  count v [] = 0
  count v (w ∷ ws) = (if same w v then 1 else 0) + count v ws

  -- `retain(|i| i != v)`
  abbrev pub without : V → List V → List V
  without v [] = []
  without v (w ∷ ws) = if same w v then without v ws else w ∷ without v ws

  pub count-++ : (v : V) (xs ys : List V) → count v (xs ++ ys) ≡ count v xs + count v ys
  count-++ v [] ys = omega arith
  count-++ v (x ∷ xs) ys = omega (arith, count-++ v xs ys)

  pub count-without_self : (v : V) (xs : List V) → count v (without v xs) ≡ 0
  count-without_self v [] = refl
  count-without_self v (x ∷ xs) = ground (arith, count-without_self v xs)

  pub count-without :
      (v w : V) (xs : List V) → same v w ≡ false → count w (without v xs) ≡ count w xs
  count-without v w [] h = refl
  count-without v w (x ∷ xs) h = elim (Bool-cases (same x v)) [
    | inl b ↦
        rw (b, subst (λ z. same z w ≡ false) (sym (same-true x v b)) h)
          (omega (arith, count-without v w xs h))
    | inr b ↦ rw b (omega (arith, count-without v w xs h))
  ]

  pub length-without : (v : V) (xs : List V) → length (without v xs) ≤ length xs
  unfolding length
  length-without v [] = omega arith
  length-without v (x ∷ xs) = ground (arith, length-without v xs)

  pub without-absent : (v : V) (xs : List V) → count v xs ≡ 0 → without v xs ≡ xs
  without-absent v [] h = refl
  without-absent v (x ∷ xs) h = elim (Bool-cases (same x v)) [
    | inl b ↦ ground (arith, h, b)
    | inr b ↦ rw b (ap (λ z. x ∷ z) (without-absent v xs (ground (arith, h, b))))
  ]

  nonempty : (v : V) (vs : List V) → count v vs ≡ 1 → 1 ≤ length vs
  unfolding length
  nonempty v [] once = absurd (omega (arith, once))
  nonempty v (w ∷ ws) once = omega arith

  pub count-lone :
      (v w : V) (xs : List V) → length xs ≤ 1 → count v xs ≡ 1 → same v w ≡ false → count w xs ≡ 0
  unfolding length
  count-lone v w [] short once h = refl
  count-lone v w (x ∷ []) short once h =
      rw (subst (λ z. same z w ≡ false) (sym (same-true x v (ground arith))) h) refl
  count-lone v w (x ∷ y ∷ xs) short once h = absurd (omega (arith, short))

abbrev pub one : Bool → ℕ
one true = 1
one false = 0

module _ {K V : Type 0} ⦃o : Ord K⦄ ⦃e : Ord V⦄ where
  abbrev pub values : K → TreeMap K (List V) → List V
  values k index = unwrap_or (lookup k index) []

  -- `entry(k).or_default().push(v)`
  unfoldable pub push_index : K → V → TreeMap K (List V) → TreeMap K (List V)
  push_index k v index = insert k (values k index ++ v ∷ []) index

  -- The value is taken from its list, and the key with its last value; `none` is a failed `unwrap`.
  unfoldable pub drop_index : K → V → TreeMap K (List V) → Option (TreeMap K (List V))
  drop_index k v index = elim (lookup k index) [
    | none ↦ none
    | some vs ↦ some (if ltb 1 (length vs) then insert k (without v vs) index else remove k index)
  ]

  -- The same where the key goes with a list of one value.
  abbrev pub drop_found : K → V → List V → TreeMap K (List V) → TreeMap K (List V)
  drop_found k v vs index = if length vs == 1 then remove k index else insert k (without v vs) index

  unfoldable pub drop_single : K → V → TreeMap K (List V) → Option (TreeMap K (List V))
  drop_single k v index = elim (lookup k index) [
    | none ↦ none
    | some vs ↦ some (drop_found k v vs index)
  ]

  -- Each pair of a relation stands once in the index, and no other pair.
  abbrev pub IsIndex : (K → V → Bool) → TreeMap K (List V) → Type 0
  IsIndex member index =
      IsSorted index × ((k : K) (v : V) → count v (values k index) ≡ one (member k v))

  count-pushed :
      (member member' : K → V → Bool) (k : K) (v w : V) (index : TreeMap K (List V))
      → IsIndex member index
      → member k v ≡ false
      → member' k w ≡ (member k w || (same k k && same v w))
      → count w (values k index ++ v ∷ []) ≡ one (member' k w)
  count-pushed member member' k v w index h fresh with_pair = elim (Bool-cases (same v w)) [
    | inl b ↦
        subst (λ z. count z (values k index ++ v ∷ []) ≡ one (member' k z)) (same-true v w b)
          (ground (
            arith,
            count-++ v (values k index) (v ∷ []),
            h.1 k v,
            fresh,
            same_refl v,
            same_refl k,
            b,
            subst (λ z. member' k z ≡ (member k z || (same k k && same v z)))
                (sym (same-true v w b)) with_pair,
          ))
    | inr b ↦ ground (arith, count-++ w (values k index) (v ∷ []), h.1 k w, b, with_pair)
  ]

  pub push_index-IsIndex :
      (member member' : K → V → Bool) (k : K) (v : V) (index : TreeMap K (List V))
      → IsIndex member index
      → member k v ≡ false
      → ((j : K) (w : V) → member' j w ≡ (member j w || (same k j && same v w)))
      → IsIndex member' (push_index k v index)
  unfolding push_index
  push_index-IsIndex member member' k v index h fresh with_pair = (
    insert-IsSorted k _ index h.0,
    λ j w. elim (Bool-cases (same k j)) [
      | inl b ↦
          subst
            (λ z.
              count w (values z (insert k (values k index ++ v ∷ []) index)) ≡ one (member' z w))
            (same-true k j b)
            (rw (lookup-insert_self k (values k index ++ v ∷ []) index)
              (count-pushed member member' k v w index h fresh (with_pair k w)))
      | inr b ↦
          rw (lookup-insert_ne k j (values k index ++ v ∷ []) index (same-false k j b))
            (ground (arith, h.1 j w, with_pair j w, b))
    ],
  )

  -- What is left of the list of the key.
  count-dropped :
      (member member' : K → V → Bool) (k : K) (v w : V) (vs left : List V)
      → count w vs ≡ one (member k w)
      → count v left ≡ 0
      → (same v w ≡ false → count w left ≡ count w vs)
      → member' k w ≡ (member k w && not (same k k && same v w))
      → count w left ≡ one (member' k w)
  count-dropped member member' k v w vs left before gone rest without_pair =
      elim (Bool-cases (same v w)) [
        | inl b ↦
            let zero_left : count w left ≡ 0 =
              subst (λ z. count z left ≡ 0) (same-true v w b) gone in
            ground (arith, zero_left, without_pair, b, same_refl k)
        | inr b ↦ ground (arith, rest b, before, without_pair, b)
      ]

  dropped-IsIndex :
      (member member' : K → V → Bool) (k : K) (v : V) (index index' : TreeMap K (List V))
      (left : List V)
      → IsIndex member index
      → IsSorted index'
      → values k index' ≡ left
      → ((j : K) → same k j ≡ false → values j index' ≡ values j index)
      → count v left ≡ 0
      → ((w : V) → same v w ≡ false → count w left ≡ count w (values k index))
      → ((j : K) (w : V) → member' j w ≡ (member j w && not (same k j && same v w)))
      → IsIndex member' index'
  dropped-IsIndex member member' k v index index' left h sorted here others gone rest without_pair =
      (
        sorted,
        λ j w. elim (Bool-cases (same k j)) [
          | inl b ↦
              subst (λ z. count w (values z index') ≡ one (member' z w)) (same-true k j b)
                (ap (λ z. count w z) here
                  ∙ count-dropped member member' k v w (values k index) left (h.1 k w) gone (rest w)
                      (without_pair k w))
          | inr b ↦ ap (λ z. count w z) (others j b) ∙ ground (arith, h.1 j w, without_pair j w, b)
        ],
      )

  pub drop_index-IsIndex :
      (member member' : K → V → Bool) (k : K) (v : V) (index : TreeMap K (List V))
      → IsIndex member index
      → member k v ≡ true
      → ((j : K) (w : V) → member' j w ≡ (member j w && not (same k j && same v w)))
      → (index' : TreeMap K (List V)) × (drop_index k v index ≡ some index')
        × IsIndex member' index'
  unfolding drop_index
  drop_index-IsIndex member member' k v index h there without_pair =
      elim (Option-cases (lookup k index)) [
        | inl q ↦ ground (arith, h.1 k v, there, q)
        | inr (vs, q) ↦
            let at_k : values k index ≡ vs = rw q refl in
            elim (Bool-cases (ltb 1 (length vs))) [
              | inl b ↦ (
                insert k (without v vs) index,
                rw (drop_index, q, b) refl,
                dropped-IsIndex member member' k v index (insert k (without v vs) index)
                    (without v vs) h (insert-IsSorted k (without v vs) index h.0)
                    (rw (lookup-insert_self k (without v vs) index) refl)
                    (λ j c. rw (lookup-insert_ne k j (without v vs) index (same-false k j c)) refl)
                    (count-without_self v vs) (λ w c. rw at_k (count-without v w vs c))
                    without_pair,
              )
              | inr b ↦ (
                remove k index,
                rw (drop_index, q, b) refl,
                dropped-IsIndex member member' k v index (remove k index) [] h
                    (remove-IsSorted k index h.0) (rw (lookup-remove_self k index h.0) refl)
                    (λ j c. rw (lookup-remove_ne k j index (same-false k j c)) refl) refl
                    (λ w c. sym (
                      rw at_k (
                        count-lone v w vs (ground (arith, b))
                          (sym (ap (λ z. count v z) at_k) ∙ h.1 k v ∙ rw there refl) c)))
                    without_pair,
              )
            ]
      ]

  pub drop_single-drop_index :
      (member : K → V → Bool) (k : K) (v : V) (index : TreeMap K (List V))
      → IsIndex member index
      → member k v ≡ true
      → drop_single k v index ≡ drop_index k v index
  unfolding drop_single drop_index
  drop_single-drop_index member k v index h there = elim (Option-cases (lookup k index)) [
    | inl q ↦ rw (drop_single, drop_index, q) refl
    | inr (vs, q) ↦
        let once : count v vs ≡ 1 =
          ap (λ o. count v (unwrap_or o [])) (sym q) ∙ h.1 k v ∙ rw there refl in
        rw (drop_single, drop_index, q) (agree vs once)
  ]
    where
      agree :
          (vs : List V)
          → count v vs ≡ 1
          → some (drop_found k v vs index)
            ≡ some (if ltb 1 (length vs) then insert k (without v vs) index else remove k index)
      agree vs once = elim (Bool-cases (length vs == 1)) [
        | inl b ↦ ground (arith, b)
        | inr b ↦ ground (arith, b, nonempty v vs once)
      ]
