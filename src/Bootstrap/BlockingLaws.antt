-- ===== src/Bootstrap/BlockingLaws.antt =====
-- node/src/bootstrap/ascending/ordered_blocking.rs: that the map and its four orders agree.
use rsbanano_node.Prelude.{
  ◌≤◌, ◌≡◌, refl, sym, ◌∙◌, ap, none, some, if◌then◌else◌, arith, Bool-cases, Option-cases, inl,
  inr,
}
use rsbanano_node.Prelude.Lists.{length}
use rsbanano_node.Prelude.Order.{
  Ord, nat_ord, TreeMap, lookup, insert, remove, IsSorted, insert-IsSorted, remove-IsSorted,
}
use rsbanano_node.Prelude.Order.Lookup.{same, same-true, lookup-insert, lookup-remove}
use rsbanano_node.Prelude.Index.{without, IsIndex, length-without}
use rsbanano_node.Prelude.Index.Entries.{
  IsSequence, push-IsSequence, without-IsSequence, has, push-has, drop-has,
}
use rsbanano_node.Core.Types.{Account}
use rsbanano_node.Bootstrap.Blocking.{
  BlockingEntry, OrderedBlocking, entry_priority, entry_account, insert_blocking, remove_blocked,
  remove_blocking,
}

module _ {P : Type 0} ⦃o : Ord P⦄ where
  abbrev pub IsKeyed : TreeMap Account (BlockingEntry P) → Type 0
  IsKeyed m = (a : Account) (e : BlockingEntry P) → lookup a m ≡ some e → entry_account e ≡ a

  -- The entries stand under their accounts, and all orders have the accounts of the map, each once,
  -- and in the list of its value.
  abbrev pub IsBlocking : OrderedBlocking P → Type 0
  IsBlocking q =
      IsSorted q.blocked_by_account
      × IsKeyed q.blocked_by_account
      × IsSequence q.blocked_by_account q.blocked_sequence
      × IsIndex (has entry_priority q.blocked_by_account) q.blocked_by_priority
      × IsIndex (has (λ e. e.dependency) q.blocked_by_account) q.by_dependency
      × IsIndex (has (λ e. e.dependency_account) q.blocked_by_account) q.by_dependency_account

  pub insert-IsKeyed :
      (m : TreeMap Account (BlockingEntry P)) (k : Account) (v : BlockingEntry P)
      → entry_account v ≡ k
      → IsKeyed m
      → IsKeyed (insert k v m)
  insert-IsKeyed m k v same_key keyed a e found = elim (Bool-cases (same k a)) [
    | inl b ↦ ground (arith, lookup-insert k a v m, b, found, same_key, same-true k a b)
    | inr b ↦ keyed a e (ground (arith, lookup-insert k a v m, b, found))
  ]

  pub remove-IsKeyed :
      (m : TreeMap Account (BlockingEntry P)) (k : Account)
      → IsSorted m
      → IsKeyed m
      → IsKeyed (remove k m)
  remove-IsKeyed m k sorted keyed a e found =
      keyed a e (ground (arith, lookup-remove k a m sorted, found))

  pub insert_blocking-IsBlocking :
      (q : OrderedBlocking P) (entry : BlockingEntry P)
      → IsBlocking q
      → IsBlocking (insert_blocking q entry).1
  unfolding insert_blocking
  insert_blocking-IsBlocking q entry h =
      let a = entry_account entry in
      elim (Option-cases (lookup a q.blocked_by_account)) [
        | inr (e, found) ↦ rw (insert_blocking, found) h
        | inl fresh ↦
            rw (insert_blocking, fresh)
              (
                insert-IsSorted a entry q.blocked_by_account h.0,
                insert-IsKeyed q.blocked_by_account a entry refl h.1,
                push-IsSequence q.blocked_by_account q.blocked_sequence a entry h.2 fresh,
                push-has entry_priority q.blocked_by_account a entry q.blocked_by_priority fresh
                    h.3,
                push-has (λ e. e.dependency) q.blocked_by_account a entry q.by_dependency fresh h.4,
                push-has (λ e. e.dependency_account) q.blocked_by_account a entry
                    q.by_dependency_account fresh h.5,
              )
      ]

  -- The entry of an account is removed from the map and from all orders, without a panic.
  pub remove_blocked-some :
      (q : OrderedBlocking P) (account : Account) (entry : BlockingEntry P)
      → IsBlocking q
      → lookup account q.blocked_by_account ≡ some entry
      → (q' : OrderedBlocking P) × (remove_blocked q account entry ≡ some q')
        × IsBlocking q'
        × (q'.blocked_by_account ≡ remove account q.blocked_by_account)
        × (q'.blocked_sequence ≡ without account q.blocked_sequence)
  unfolding remove_blocked
  remove_blocked-some q account entry h found =
      let m = q.blocked_by_account in
      let (i1, d1, l1) =
        drop-has entry_priority m account entry q.blocked_by_priority h.0 found h.3 in
      let (i2, d2, l2) =
        drop-has (λ e. e.dependency) m account entry q.by_dependency h.0 found h.4 in
      let (i3, d3, l3) =
        drop-has (λ e. e.dependency_account) m account entry q.by_dependency_account h.0 found
          h.5 in
      (
        record {
          blocked_by_account = remove account m;
          blocked_sequence = without account q.blocked_sequence;
          blocked_by_priority = i1;
          by_dependency = i2;
          by_dependency_account = i3;
        },
        rw (remove_blocked, h.1 account entry found, d1, d2, d3) refl,
        (
          remove-IsSorted account m h.0,
          remove-IsKeyed m account h.0 h.1,
          without-IsSequence m q.blocked_sequence account h.0 h.2,
          l1,
          l2,
          l3,
        ),
        refl,
        refl,
      )

  absent_kept :
      (q : OrderedBlocking P) (account a : Account)
      → lookup account q.blocked_by_account ≡ none
      → lookup a q.blocked_by_account
        ≡ (if same account a then none else lookup a q.blocked_by_account)
  absent_kept q account a e = elim (Bool-cases (same account a)) [
    | inl b ↦ rw b (ap (λ z. lookup z q.blocked_by_account) (sym (same-true account a b)) ∙ e)
    | inr b ↦ rw b refl
  ]

  pub remove_blocking-some :
      (q : OrderedBlocking P) (account : Account)
      → IsBlocking q
      → (q' : OrderedBlocking P) × (remove_blocking q account
          ≡ some (lookup account q.blocked_by_account, q'))
        × IsBlocking q'
        × ((a : Account)
            → lookup a q'.blocked_by_account
              ≡ (if same account a then none else lookup a q.blocked_by_account))
        × (length q'.blocked_sequence ≤ length q.blocked_sequence)
  unfolding remove_blocking length
  remove_blocking-some q account h = elim (Option-cases (lookup account q.blocked_by_account)) [
    | inl e ↦ (q, rw (remove_blocking, e) refl, h, λ a. absent_kept q account a e, omega arith)
    | inr (entry, e) ↦
        let (q', ran, left, map_left, seq_left) = remove_blocked-some q account entry h e in
        (
          q',
          rw (remove_blocking, e, ran) refl,
          left,
          λ a. rw map_left (lookup-remove account a q.blocked_by_account h.0),
          rw seq_left (length-without account q.blocked_sequence),
        )
  ]
