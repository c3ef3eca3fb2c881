-- ===== src/Bootstrap/PriorityChanges.antt =====
-- node/src/bootstrap/ascending/ordered_priorities.rs: that changes of an entry keep the orders.
use rsbanano_node.Prelude.{
  ℕ, true, ◌≤◌, ◌≡◌, refl, sym, ap, Option, some, is_some, arith, Bool-cases, Option-cases, inl,
  inr,
}
use rsbanano_node.Prelude.Lists.{length}
use rsbanano_node.Prelude.Order.{Ord, nat_ord, lookup, insert, insert-IsSorted}
use rsbanano_node.Prelude.Order.Lookup.{same, same-true, lookup-insert, lookup-remove}
use rsbanano_node.Prelude.Index.{push_index, length-without}
use rsbanano_node.Prelude.Index.Entries.{put-IsSequence, move-has, keep-has}
use rsbanano_node.Core.Types.{Account}
use rsbanano_node.Bootstrap.Priorities.{
  PriorityEntry, OrderedPriorities, ChangePriorityResult, updated, deleted, not_found,
  change_timestamp, change_priority,
}
use rsbanano_node.Bootstrap.PriorityLaws.{IsPriorities, take_entry-Taken, insert-IsKeyed}

module _ {P : Type 0} ⦃o : Ord P⦄ where
  -- An entry put in place of another adds no account.
  put_known :
      (q : OrderedPriorities P) (account : Account) (entry v : PriorityEntry P)
      → lookup account q.by_account ≡ some entry
      → (a : Account) → is_some (lookup a (insert account v q.by_account)) ≡ true
      → is_some (lookup a q.by_account) ≡ true
  put_known q account entry v e a there = elim (Bool-cases (same account a)) [
    | inl b ↦ ground (arith, ap (λ z. lookup z q.by_account) (same-true account a b), e)
    | inr b ↦ ground (arith, lookup-insert account a v q.by_account, b, there)
  ]

  pub change_timestamp-IsPriorities :
      (q : OrderedPriorities P) (account : Account) (timestamp : Option ℕ)
      → IsPriorities q
      → IsPriorities (change_timestamp q account timestamp)
        × ((a : Account)
            → is_some (lookup a (change_timestamp q account timestamp).by_account) ≡ true
            → is_some (lookup a q.by_account) ≡ true)
        × ((change_timestamp q account timestamp).sequenced ≡ q.sequenced)
  unfolding change_timestamp
  change_timestamp-IsPriorities q account timestamp h =
      elim (Option-cases (lookup account q.by_account)) [
        | inl e ↦ rw (change_timestamp, e) (h, λ a there. there, refl)
        | inr (entry, e) ↦
            let stamped : PriorityEntry P = record entry { timestamp = timestamp } in
            rw (change_timestamp, e)
              (
                (
                  insert-IsSorted account stamped q.by_account h.0,
                  insert-IsKeyed q.by_account account stamped (h.1 account entry e) h.1,
                  put-IsSequence q.by_account q.sequenced account stamped h.2 (rw e refl),
                  keep-has (λ v. v.priority) q.by_account account entry stamped q.by_priority e refl
                      h.3,
                ),
                λ a there. put_known q account entry stamped e a there,
                refl,
              )
      ]

  -- A change of priority never panics.
  pub change_priority-some :
      (q : OrderedPriorities P) (account : Account) (f : P → Option P)
      → IsPriorities q
      → (r : ChangePriorityResult) × (q' : OrderedPriorities P) × (change_priority q account f
          ≡ some (r, q'))
        × IsPriorities q'
        × ((a : Account)
            → is_some (lookup a q'.by_account) ≡ true
            → is_some (lookup a q.by_account) ≡ true)
        × (length q'.sequenced ≤ length q.sequenced)
  unfolding change_priority length
  change_priority-some q account f h = elim (Option-cases (lookup account q.by_account)) [
    | inl e ↦ (not_found, q, rw (change_priority, e) refl, h, λ a there. there, omega arith)
    | inr (entry, e) ↦ elim (Option-cases (f entry.priority)) [
      | inl g ↦
          let (q', ran, taken) = take_entry-Taken q account entry h e in
          (
            deleted,
            q',
            rw (change_priority, e, g, ran) refl,
            taken.0,
            λ a there. ground (arith, taken.1, lookup-remove account a q.by_account h.0, there),
            rw taken.2 (length-without account q.sequenced),
          )
      | inr (new_prio, g) ↦
          let changed : PriorityEntry P = record entry { priority = new_prio } in
          let sorted = insert-IsSorted account changed q.by_account h.0 in
          let keyed = insert-IsKeyed q.by_account account changed (h.1 account entry e) h.1 in
          let seq = put-IsSequence q.by_account q.sequenced account changed h.2 (rw e refl) in
          elim (Bool-cases (same entry.priority new_prio)) [
            | inl b ↦ (
              updated,
              record q { by_account = insert account changed q.by_account },
              rw (change_priority, e, g, b) refl,
              (
                sorted,
                keyed,
                seq,
                keep-has (λ v. v.priority) q.by_account account entry changed q.by_priority e
                    (sym (same-true entry.priority new_prio b)) h.3,
              ),
              λ a there. put_known q account entry changed e a there,
              omega arith,
            )
            | inr b ↦
                let (index', dropped, left) =
                  move-has (λ v. v.priority) q.by_account account entry changed q.by_priority e
                    h.3 in
                (
                  updated,
                  record q {
                    by_account = insert account changed q.by_account;
                    by_priority = push_index new_prio account index';
                  },
                  rw (change_priority, e, g, b, dropped) refl,
                  (sorted, keyed, seq, left),
                  λ a there. put_known q account entry changed e a there,
                  omega arith,
                )
          ]
    ]
  ]
