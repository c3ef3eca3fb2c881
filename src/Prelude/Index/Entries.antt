-- ===== src/Prelude/Index/Entries.antt =====
-- Entries under their keys, the sequence of the keys, and indexes by a field of the entries.
use mathlib.Core.Path.{subst}
use rsbanano_node.Prelude.{
  ℕ, Bool, true, false, not, ◌&&◌, ◌||◌, ◌≡◌, refl, ◌∙◌, ap, none, some, List, [], ◌∷◌, ◌++◌,
  is_some, map_or, arith, Bool-cases, inl, inr,
}
use rsbanano_node.Prelude.Order.{Ord, nat_ord, TreeMap, lookup, insert, remove, IsSorted}
use rsbanano_node.Prelude.Order.Lookup.{same, same-true, same_refl, lookup-insert, lookup-remove}
use rsbanano_node.Prelude.Index.{
  without, count, one, count-++, count-without_self, count-without, drop_index, push_index, IsIndex,
  push_index-IsIndex, drop_index-IsIndex,
}

module _ {V : Type 0} where
  -- The keys of a sequence are those of a map, each once.
  abbrev pub IsSequence : TreeMap ℕ V → List ℕ → Type 0
  IsSequence m sequenced = (a : ℕ) → count a sequenced ≡ one (is_some (lookup a m))

  pub push-IsSequence :
      (m : TreeMap ℕ V) (sequenced : List ℕ) (k : ℕ) (v : V)
      → IsSequence m sequenced
      → lookup k m ≡ none
      → IsSequence (insert k v m) (sequenced ++ k ∷ [])
  push-IsSequence m sequenced k v s fresh a = elim (Bool-cases (same k a)) [
    | inl b ↦ ground (
      arith,
      count-++ a sequenced (k ∷ []),
      s a,
      lookup-insert k a v m,
      b,
      ap (λ z. lookup z m) (same-true k a b),
      fresh,
    )
    | inr b ↦ ground (arith, count-++ a sequenced (k ∷ []), s a, lookup-insert k a v m, b)
  ]

  pub put-IsSequence :
      (m : TreeMap ℕ V) (sequenced : List ℕ) (k : ℕ) (v : V)
      → IsSequence m sequenced
      → is_some (lookup k m) ≡ true
      → IsSequence (insert k v m) sequenced
  put-IsSequence m sequenced k v s there a = elim (Bool-cases (same k a)) [
    | inl b ↦
        ground (arith, s a, lookup-insert k a v m, b, ap (λ z. lookup z m) (same-true k a b), there)
    | inr b ↦ ground (arith, s a, lookup-insert k a v m, b)
  ]

  pub without-IsSequence :
      (m : TreeMap ℕ V) (sequenced : List ℕ) (k : ℕ)
      → IsSorted m
      → IsSequence m sequenced
      → IsSequence (remove k m) (without k sequenced)
  without-IsSequence m sequenced k sorted s a = elim (Bool-cases (same k a)) [
    | inl b ↦
        subst (λ z. count z (without k sequenced) ≡ one (is_some (lookup z (remove k m))))
          (same-true k a b)
          (ground (arith, count-without_self k sequenced, lookup-remove k k m sorted, same_refl k))
    | inr b ↦ ground (arith, count-without k a sequenced b, lookup-remove k a m sorted, b, s a)
  ]

  -- The rest of a sequence whose head is taken from the map.
  pub rest-IsSequence :
      (m : TreeMap ℕ V) (k : ℕ) (rest : List ℕ)
      → IsSorted m
      → IsSequence m (k ∷ rest)
      → IsSequence (remove k m) (without k rest)
  rest-IsSequence m k rest sorted s a = elim (Bool-cases (same k a)) [
    | inl b ↦
        subst (λ z. count z (without k rest) ≡ one (is_some (lookup z (remove k m))))
          (same-true k a b)
          (ground (arith, count-without_self k rest, lookup-remove k k m sorted, same_refl k))
    | inr b ↦ ground (arith, count-without k a rest b, lookup-remove k a m sorted, b, s a)
  ]

module _ {V P : Type 0} ⦃o : Ord P⦄ (field : V → P) where
  -- The entry of the key has the value in its field.
  abbrev pub has : TreeMap ℕ V → P → ℕ → Bool
  has m p a = map_or (lookup a m) false (λ e. same (field e) p)

  has-insert_new :
      (m : TreeMap ℕ V) (k : ℕ) (v : V) (p : P) (a : ℕ)
      → lookup k m ≡ none
      → has (insert k v m) p a ≡ (has m p a || (same (field v) p && same k a))
  has-insert_new m k v p a fresh = elim (Bool-cases (same k a)) [
    | inl b ↦
        ground (arith, lookup-insert k a v m, b, ap (λ z. lookup z m) (same-true k a b), fresh)
    | inr b ↦ ground (arith, lookup-insert k a v m, b)
  ]

  has-remove :
      (m : TreeMap ℕ V) (k : ℕ) (e : V) (p : P) (a : ℕ)
      → IsSorted m
      → lookup k m ≡ some e
      → has (remove k m) p a ≡ (has m p a && not (same (field e) p && same k a))
  has-remove m k e p a sorted found = elim (Bool-cases (same k a)) [
    | inl b ↦
        ground (arith, lookup-remove k a m sorted, b, ap (λ z. lookup z m) (same-true k a b), found)
    | inr b ↦ ground (arith, lookup-remove k a m sorted, b)
  ]

  has-put :
      (m : TreeMap ℕ V) (k : ℕ) (e v : V) (p : P) (a : ℕ)
      → lookup k m ≡ some e
      → has (insert k v m) p a
        ≡ ((has m p a && not (same (field e) p && same k a)) || (same (field v) p && same k a))
  has-put m k e v p a found = elim (Bool-cases (same k a)) [
    | inl b ↦
        ground (arith, lookup-insert k a v m, b, ap (λ z. lookup z m) (same-true k a b), found)
    | inr b ↦ ground (arith, lookup-insert k a v m, b)
  ]

  -- A new entry is pushed.
  pub push-has :
      (m : TreeMap ℕ V) (k : ℕ) (v : V) (index : TreeMap P (List ℕ))
      → lookup k m ≡ none
      → IsIndex (has m) index
      → IsIndex (has (insert k v m)) (push_index (field v) k index)
  push-has m k v index fresh h =
      push_index-IsIndex (has m) (has (insert k v m)) (field v) k index h (rw fresh refl)
        (λ p a. has-insert_new m k v p a fresh)

  -- The entry of a key is dropped.
  pub drop-has :
      (m : TreeMap ℕ V) (k : ℕ) (e : V) (index : TreeMap P (List ℕ))
      → IsSorted m
      → lookup k m ≡ some e
      → IsIndex (has m) index
      → (index' : TreeMap P (List ℕ)) × (drop_index (field e) k index ≡ some index')
        × IsIndex (has (remove k m)) index'
  drop-has m k e index sorted found h =
      drop_index-IsIndex (has m) (has (remove k m)) (field e) k index h
        (rw found (same_refl (field e))) (λ p a. has-remove m k e p a sorted found)

  -- The entry of a key changes, and moves to the end of the list of its new value.
  pub move-has :
      (m : TreeMap ℕ V) (k : ℕ) (e v : V) (index : TreeMap P (List ℕ))
      → lookup k m ≡ some e
      → IsIndex (has m) index
      → (index' : TreeMap P (List ℕ)) × (drop_index (field e) k index ≡ some index')
        × IsIndex (has (insert k v m)) (push_index (field v) k index')
  move-has m k e v index found h =
      let rest : P → ℕ → Bool = λ p a. has m p a && not (same (field e) p && same k a) in
      let (index', dropped, left) =
        drop_index-IsIndex (has m) rest (field e) k index h (rw found (same_refl (field e)))
          (λ p a. refl) in
      (
        index',
        dropped,
        push_index-IsIndex rest (has (insert k v m)) (field v) k index' left
            (ground (arith, found, same_refl k)) (λ p a. has-put m k e v p a found),
      )

  -- The entry of a key changes in another field.
  pub keep-has :
      (m : TreeMap ℕ V) (k : ℕ) (e v : V) (index : TreeMap P (List ℕ))
      → lookup k m ≡ some e
      → field v ≡ field e
      → IsIndex (has m) index
      → IsIndex (has (insert k v m)) index
  keep-has m k e v index found same_field h = (h.0, λ p a. h.1 p a ∙ ap (λ b. one b) (kept p a))
    where
      kept : (p : P) (a : ℕ) → has m p a ≡ has (insert k v m) p a
      kept p a = elim (Bool-cases (same k a)) [
        | inl b ↦ ground (
          arith,
          lookup-insert k a v m,
          b,
          ap (λ z. lookup z m) (same-true k a b),
          found,
          ap (λ z. same z p) same_field,
        )
        | inr b ↦ ground (arith, lookup-insert k a v m, b)
      ]
