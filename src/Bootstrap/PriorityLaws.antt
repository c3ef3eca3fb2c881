-- ===== src/Bootstrap/PriorityLaws.antt =====
-- node/src/bootstrap/ascending/ordered_priorities.rs: that the map and its orders agree.
use mathlib.Core.Path.{subst}
use rsbanano_node.Prelude.{
  true, ◌||◌, ◌-◌, ◌≤◌, ◌≡◌, refl, sym, ◌∙◌, ap, Option, none, some, List, [], ◌∷◌, if◌then◌else◌,
  is_some, arith, Bool-cases, Option-cases, inl, inr,
}
use rsbanano_node.Prelude.Lists.{length}
use rsbanano_node.Prelude.Order.{
  Ord, nat_ord, TreeMap, lookup, insert, remove, IsSorted, insert-IsSorted, remove-IsSorted,
}
use rsbanano_node.Prelude.Order.Lookup.{same, same-true, same_refl, lookup-insert, lookup-remove}
use rsbanano_node.Prelude.Index.{without, IsIndex, length-without}
use rsbanano_node.Prelude.Index.Entries.{
  IsSequence, push-IsSequence, without-IsSequence, rest-IsSequence, has, push-has, drop-has,
}
use rsbanano_node.Core.Types.{Account}
use rsbanano_node.Bootstrap.Priorities.{
  PriorityEntry, OrderedPriorities, prioritized, insert_priority, take_entry, remove_account,
  remove_priority, pop_priority,
}

module _ {P : Type 0} ⦃o : Ord P⦄ where
  -- The entries stand under their accounts.
  abbrev pub IsKeyed : TreeMap Account (PriorityEntry P) → Type 0
  IsKeyed m = (a : Account) (e : PriorityEntry P) → lookup a m ≡ some e → e.account ≡ a

  -- Both orders have the accounts of the map, each once, and in the list of its priority.
  abbrev pub IsPriorities : OrderedPriorities P → Type 0
  IsPriorities q =
      IsSorted q.by_account
      × IsKeyed q.by_account
      × IsSequence q.by_account q.sequenced
      × IsIndex (has (λ e. e.priority) q.by_account) q.by_priority

  pub insert-IsKeyed :
      (m : TreeMap Account (PriorityEntry P)) (k : Account) (v : PriorityEntry P)
      → v.account ≡ k
      → IsKeyed m
      → IsKeyed (insert k v m)
  insert-IsKeyed m k v same_key keyed a e found = elim (Bool-cases (same k a)) [
    | inl b ↦ ground (arith, lookup-insert k a v m, b, found, same_key, same-true k a b)
    | inr b ↦ keyed a e (ground (arith, lookup-insert k a v m, b, found))
  ]

  remove-IsKeyed :
      (m : TreeMap Account (PriorityEntry P)) (k : Account)
      → IsSorted m
      → IsKeyed m
      → IsKeyed (remove k m)
  remove-IsKeyed m k sorted keyed a e found =
      keyed a e (ground (arith, lookup-remove k a m sorted, found))

  pub insert_priority-IsPriorities :
      (q : OrderedPriorities P) (entry : PriorityEntry P)
      → IsPriorities q
      → IsPriorities (insert_priority q entry).1
  unfolding insert_priority
  insert_priority-IsPriorities q entry h = elim (Option-cases (lookup entry.account q.by_account)) [
    | inr (e, found) ↦ rw (insert_priority, found) h
    | inl fresh ↦
        rw (insert_priority, fresh)
          (
            insert-IsSorted entry.account entry q.by_account h.0,
            insert-IsKeyed q.by_account entry.account entry refl h.1,
            push-IsSequence q.by_account q.sequenced entry.account entry h.2 fresh,
            push-has (λ e. e.priority) q.by_account entry.account entry q.by_priority fresh h.3,
          )
  ]

  -- An insertion adds at most the account of the entry, and one to the length.
  pub insert_priority-added :
      (q : OrderedPriorities P) (entry : PriorityEntry P) (a : Account)
      → is_some (lookup a (insert_priority q entry).1.by_account) ≡ true
      → same entry.account a || is_some (lookup a q.by_account) ≡ true
  unfolding insert_priority
  insert_priority-added q entry a there = elim (Bool-cases (prioritized q entry.account)) [
    | inl b ↦ ground (arith, b, there)
    | inr b ↦ ground (arith, b, there, lookup-insert entry.account a entry q.by_account)
  ]

  -- The entry that is taken, and what is left.
  abbrev pub Taken : OrderedPriorities P → Account → PriorityEntry P → OrderedPriorities P → Type 0
  Taken q account entry q' =
      IsPriorities q'
      × (q'.by_account ≡ remove account q.by_account)
      × (q'.sequenced ≡ without account q.sequenced)

  pub take_entry-Taken :
      (q : OrderedPriorities P) (account : Account) (entry : PriorityEntry P)
      → IsPriorities q
      → lookup account q.by_account ≡ some entry
      → (q' : OrderedPriorities P) × (take_entry q account entry ≡ some (entry, q'))
        × Taken q account entry q'
  unfolding take_entry
  take_entry-Taken q account entry h found =
      let (index', dropped, left) =
        drop-has (λ e. e.priority) q.by_account account entry q.by_priority h.0 found h.3 in
      (
        record {
          by_account = remove account q.by_account;
          sequenced = without account q.sequenced;
          by_priority = index';
        },
        rw (take_entry, dropped) refl,
        (
          (
            remove-IsSorted account q.by_account h.0,
            remove-IsKeyed q.by_account account h.0 h.1,
            without-IsSequence q.by_account q.sequenced account h.0 h.2,
            left,
          ),
          refl,
          refl,
        ),
      )

  absent_kept :
      (q : OrderedPriorities P) (account a : Account)
      → lookup account q.by_account ≡ none
      → lookup a q.by_account ≡ (if same account a then none else lookup a q.by_account)
  absent_kept q account a e = elim (Bool-cases (same account a)) [
    | inl b ↦ rw b (ap (λ z. lookup z q.by_account) (sym (same-true account a b)) ∙ e)
    | inr b ↦ rw b refl
  ]

  -- A removal never panics: it takes the entry of the account, if there is one.
  pub remove_priority-some :
      (q : OrderedPriorities P) (account : Account)
      → IsPriorities q
      → (q' : OrderedPriorities P) × (remove_priority q account
          ≡ some (lookup account q.by_account, q'))
        × IsPriorities q'
        × ((a : Account)
            → lookup a q'.by_account ≡ (if same account a then none else lookup a q.by_account))
        × (length q'.sequenced ≤ length q.sequenced)
  unfolding remove_priority length
  remove_priority-some q account h = elim (Option-cases (lookup account q.by_account)) [
    | inl e ↦ (q, rw (remove_priority, e) refl, h, λ a. absent_kept q account a e, omega arith)
    | inr (entry, e) ↦
        let (q', ran, taken) = take_entry-Taken q account entry h e in
        (
          q',
          rw (remove_priority, e, ran) refl,
          taken.0,
          λ a. rw taken.1 (lookup-remove account a q.by_account h.0),
          rw taken.2 (length-without account q.sequenced),
        )
  ]

  -- The oldest account is taken, if there is one.
  pub pop_priority-some :
      (q : OrderedPriorities P)
      → IsPriorities q
      → (popped : Option (PriorityEntry P)) × (q' : OrderedPriorities P) × (pop_priority q
          ≡ some (popped, q'))
        × IsPriorities q'
        × ((a : Account)
            → is_some (lookup a q'.by_account) ≡ true
            → is_some (lookup a q.by_account) ≡ true)
        × (length q'.sequenced ≤ length q.sequenced - 1)
  unfolding pop_priority remove_account take_entry length
  pop_priority-some q h = go q.sequenced refl
    where
      go :
          (sequenced : List Account)
          → q.sequenced ≡ sequenced
          → (popped : Option (PriorityEntry P)) × (q' : OrderedPriorities P) × (pop_priority q
              ≡ some (popped, q'))
            × IsPriorities q'
            × ((a : Account)
                → is_some (lookup a q'.by_account) ≡ true
                → is_some (lookup a q.by_account) ≡ true)
            × (length q'.sequenced ≤ length q.sequenced - 1)
      go [] c = (none, q, ground (arith, c), h, λ a there. there, rw c (omega arith))
      go (k ∷ rest) c = elim (Option-cases (lookup k q.by_account)) [
        | inl e ↦ ground (arith, h.2 k, c, e, same_refl k)
        | inr (entry, e) ↦
            let (index', dropped, left) =
              drop-has (λ v. v.priority) q.by_account k entry q.by_priority h.0 e h.3 in
            (
              some entry,
              record {
                by_account = remove k q.by_account;
                sequenced = without k rest;
                by_priority = index';
              },
              rw (pop_priority, c, e, dropped) refl,
              (
                remove-IsSorted k q.by_account h.0,
                remove-IsKeyed q.by_account k h.0 h.1,
                rest-IsSequence q.by_account k rest h.0
                    (subst (λ z. IsSequence q.by_account z) c h.2),
                left,
              ),
              λ a there. ground (arith, lookup-remove k a q.by_account h.0, there),
              rw c (omega (arith, length-without k rest)),
            )
      ]
