-- ===== src/Bootstrap/Choice.antt =====
-- node/src/bootstrap/ascending/account_sets.rs: the search for the account that is asked for next.
use mathlib.Core.Path.{subst}
use rsbanano_node.Prelude.{
  ℕ, Bool, true, false, ◌≤◌, ◌≡◌, refl, sym, ◌∙◌, Option, none, some, List, [], ◌∷◌, ◌++◌, map_or,
  arith, Bool-cases, inl, inr, ◌⊎◌,
}
use rsbanano_node.Prelude.Order.{
  Ord, nat_ord, TreeMap, lookup, IsSorted, IsAbove-lt, lookup-above, lt_asym,
}
use rsbanano_node.Prelude.Order.Lookup.{lookup-tail, same, same-true, same_refl}
use rsbanano_node.Prelude.Index.{values, count}
use rsbanano_node.Core.Types.{Account}
use rsbanano_node.Bootstrap.Priorities.{PriorityEntry, flatten, is_ready, find_ready}
use rsbanano_node.Bootstrap.PriorityLaws.{IsKeyed}

module _ {P : Type 0} ⦃o : Ord P⦄ (m : TreeMap Account (PriorityEntry P)) (cutoff : ℕ)
    (filter : Account → Bool) where
  -- The account has an entry that may be asked for.
  abbrev pub ready : Account → Bool
  ready a = map_or (lookup a m) false (λ e. is_ready cutoff filter e)

  -- The accounts of a list have entries of one priority.
  abbrev IsListed : P → List Account → Type 0
  IsListed p accs =
      (a : Account)
      → 1 ≤ count a accs
      → (e : PriorityEntry P) × (lookup a m ≡ some e) × (e.priority ≡ p)

  -- What a search finds before the rest: nothing that is ready, or an entry of the priority.
  abbrev Searched : P → List Account → List Account → Type 0
  Searched p accs rest =
      ((find_ready m cutoff filter (accs ++ rest) ≡ find_ready m cutoff filter rest)
        × ((b : Account) → 1 ≤ count b accs → ready b ≡ false))
      ⊎ ((e : PriorityEntry P) × (find_ready m cutoff filter (accs ++ rest) ≡ some (some e.account))
          × (lookup e.account m ≡ some e)
          × (is_ready cutoff filter e ≡ true)
          × (e.priority ≡ p))

  search_step :
      (p : P) (a : Account) (accs rest : List Account) (e : PriorityEntry P)
      → IsKeyed m
      → lookup a m ≡ some e
      → e.priority ≡ p
      → Searched p accs rest
      → Searched p (a ∷ accs) rest
  search_step p a accs rest e keyed found prio s = elim (Bool-cases (is_ready cutoff filter e)) [
    | inl r ↦ inr (
      e,
      rw (find_ready, found, r) refl,
      subst (λ z. lookup z m ≡ some e) (sym (keyed a e found)) found,
      r,
      prio,
    )
    | inr r ↦ elim s [
      | inr t ↦ inr (t.0, rw (find_ready, found, r) t.1, t.2, t.3, t.4)
      | inl t ↦ inl (
        rw (find_ready, found, r) t.0,
        λ b some_b. elim (Bool-cases (same a b)) [
          | inl y ↦ subst (λ z. ready z ≡ false) (same-true a b y) (rw (found, r) refl)
          | inr y ↦ t.1 b (ground (arith, some_b, y))
        ],
      )
    ]
  ]

  search : (p : P) (accs rest : List Account) → IsKeyed m → IsListed p accs → Searched p accs rest
  search p [] rest keyed listed = inl (refl, λ b some_b. absurd (omega (arith, some_b)))
  search p (a ∷ accs) rest keyed listed =
      let (e, found, prio) = listed a (ground (arith, same_refl a)) in
      search_step p a accs rest e keyed found prio
        (search p accs rest keyed (λ b some_b. listed b (ground (arith, some_b))))

  -- The entries that the index lists under a priority have it.
  abbrev pub IsOrdered : TreeMap P (List Account) → Type 0
  IsOrdered index =
      (p : P) (a : Account)
      → 1 ≤ count a (values p index)
      → (e : PriorityEntry P) × (lookup a m ≡ some e) × (e.priority ≡ p)

  -- The first ready entry of an index is one of the highest priority.
  abbrev pub Chosen : Option (Option Account) → TreeMap P (List Account) → Type 0
  Chosen found index =
      ((found ≡ some none)
        × ((p : P) (b : Account) → 1 ≤ count b (values p index) → ready b ≡ false))
      ⊎ ((e : PriorityEntry P) × (found ≡ some (some e.account))
          × (lookup e.account m ≡ some e)
          × (is_ready cutoff filter e ≡ true)
          × ((p : P) (b : Account)
              → 1 ≤ count b (values p index)
              → ready b ≡ true
              → o.lt p e.priority ≡ false))

  -- A key of a sorted index is its first key, or it lies above, in the rest.
  split :
      (j p : P) (accs : List Account) (index : TreeMap P (List Account)) (b : Account)
      → IsSorted ((j, accs) ∷ index)
      → 1 ≤ count b (values p ((j, accs) ∷ index))
      → ((j ≡ p) × (1 ≤ count b accs)) ⊎ ((o.lt j p ≡ true) × (1 ≤ count b (values p index)))
  unfolding lookup
  split j p accs index b sorted some_b = elim (Bool-cases (o.lt j p)) [
    | inl x ↦ inr (x, ground (arith, some_b, x))
    | inr x ↦ elim (Bool-cases (o.lt p j)) [
      | inl y ↦ ground (arith, some_b, x, y, lookup-above p index (IsAbove-lt p j index y sorted.0))
      | inr y ↦ inl (o.lt_total j p x y, ground (arith, some_b, x, y))
    ]
  ]

  pub chosen :
      (index : TreeMap P (List Account))
      → IsKeyed m
      → IsSorted index
      → IsOrdered index
      → Chosen (find_ready m cutoff filter (flatten index)) index
  unfolding lookup
  chosen [] keyed sorted ordered = inl (refl, λ p b some_b. absurd (omega (arith, some_b)))
  chosen ((j, accs) ∷ index) keyed sorted ordered =
      elim (search j accs (flatten index) keyed listed) [
        | inr t ↦ inr (
          t.0,
          t.1,
          t.2,
          t.3,
          λ p b some_b r. elim (split j p accs index b sorted some_b) [
            | inl s ↦ subst (λ z. o.lt p z ≡ false) (sym (t.4 ∙ s.0)) (o.lt_irrefl p)
            | inr s ↦ subst (λ z. o.lt p z ≡ false) (sym t.4) (lt_asym j p s.0)
          ],
        )
        | inl t ↦ elim (chosen index keyed sorted.1 rest) [
          | inl u ↦ inl (
            t.0 ∙ u.0,
            λ p b some_b. elim (split j p accs index b sorted some_b) [
              | inl s ↦ t.1 b s.1
              | inr s ↦ u.1 p b s.1
            ],
          )
          | inr u ↦ inr (
            u.0,
            t.0 ∙ u.1,
            u.2,
            u.3,
            λ p b some_b r. elim (split j p accs index b sorted some_b) [
              | inl s ↦ ground (arith, t.1 b s.1, r)
              | inr s ↦ u.4 p b s.1 r
            ],
          )
        ]
      ]
    where
      listed : IsListed j accs
      listed a some_a = ordered j a (rw (o.lt_irrefl j) some_a)

      rest : IsOrdered index
      rest p a some_a = elim (lookup-tail j p accs index sorted) [
        | inl e ↦ ordered p a (rw e some_a)
        | inr e ↦ ground (arith, some_a, e)
      ]
