-- ===== src/Bootstrap/BlockedLaws.antt =====
-- node/src/bootstrap/ascending/account_sets.rs: that blocking, unblocking, time stamps and what is learnt
-- of a dependency keep both sets well formed, apart and within their bounds.
use mathlib.Core.Path.{subst}
use rsbanano_node.Prelude.{
  ℕ, true, false, ◌≡◌, refl, Option, none, some, unwrap_or, arith, Bool-cases, Option-cases, inl,
  inr,
}
use rsbanano_node.Prelude.Order.{Ord, nat_ord, lookup}
use rsbanano_node.Prelude.Order.Lookup.{same, same-true, same_refl, lookup-insert}
use rsbanano_node.Core.Types.{Account, BlockHash, is_zero}
use rsbanano_node.Bootstrap.Priorities.{
  OrderedPriorities, new_entry, prioritized, insert_priority, change_timestamp,
}
use rsbanano_node.Bootstrap.PriorityLaws.{
  IsPriorities, insert_priority-IsPriorities, remove_priority-some,
}
use rsbanano_node.Bootstrap.PriorityChanges.{change_timestamp-IsPriorities}
use rsbanano_node.Bootstrap.Blocking.{
  BlockingEntry, OrderedBlocking, entry_account, blocked, insert_blocking,
}
use rsbanano_node.Bootstrap.BlockingLaws.{insert_blocking-IsBlocking, remove_blocking-some}
use rsbanano_node.Bootstrap.BlockingPops.{modify_dependency_account-some}
use rsbanano_node.Bootstrap.AccountSets.{
  AccountSets, PriorityArith, block, unblock, hash_matches, unblocked_entry, timestamp_set,
  timestamp_reset, dependency_update,
}
use rsbanano_node.Bootstrap.Trim.{IsDisjoint, IsSets, fewer-IsDisjoint, trim_overflow-IsSets}
use rsbanano_node.Bootstrap.SetLaws.{Kept, insert-IsDisjoint}

module _ {P : Type 0} ⦃o : Ord P⦄ where
  module _ (arith_of : PriorityArith P) where
    unblocked-account :
        (s : AccountSets P) (account : Account) (existing : BlockingEntry P)
        → entry_account existing ≡ account
        → (unblocked_entry arith_of existing account).account ≡ account
    unblocked-account s account existing keyed = ground (arith, keyed)

    pub unblock-Kept :
        (s : AccountSets P) (account : Account) (hash : Option BlockHash)
        → IsSets s
        → Kept (unblock arith_of s account hash)
    unfolding unblock
    unblock-Kept s account hash h = elim (Bool-cases (is_zero account)) [
      | inl z ↦ (false, s, rw (unblock, z) refl, h)
      | inr z ↦ elim (Option-cases (lookup account s.blocking.blocked_by_account)) [
        | inl e ↦ (false, s, rw (unblock, z, e) refl, h)
        | inr (existing, e) ↦ elim (Bool-cases (hash_matches arith_of existing hash)) [
          | inr g ↦ (false, s, rw (unblock, z, e, g) refl, h)
          | inl g ↦
              let entry = unblocked_entry arith_of existing account in
              let (b, ran, well, left, shorter) = remove_blocking-some s.blocking account h.0.1 in
              let (t, trimmed, kept) =
                trim_overflow-IsSets
                  (record s { priorities = (insert_priority s.priorities entry).1; blocking = b })
                  (
                    insert_priority-IsPriorities s.priorities entry h.0.0,
                    well,
                    insert-IsDisjoint s.priorities b entry
                        (rw
                          (
                            unblocked-account s account existing (h.0.1.1 account existing e),
                            left account,
                            same_refl account,
                          )
                          refl)
                        (fewer-IsDisjoint s.priorities s.priorities s.blocking b h.0.2 (λ a y. y)
                          (λ a y. ground (arith, left a, y))),
                  ) in
              (true, t, rw (unblock, z, e, g, ran) (rw trimmed refl), kept)
        ]
      ]
    ]

    removed_account :
        (p : OrderedPriorities P) (account : Account)
        → IsPriorities p
        → (unwrap_or
            (lookup account p.by_account)
            (new_entry account arith_of.zero_priority)).account
          ≡ account
    removed_account p account well = elim (Option-cases (lookup account p.by_account)) [
      | inl e ↦ rw e refl
      | inr (entry, e) ↦ rw e (well.1 account entry e)
    ]

    -- An account that is not prioritised may be blocked.
    block-IsDisjoint :
        (p : OrderedPriorities P) (b : OrderedBlocking P) (entry : BlockingEntry P)
        → prioritized p (entry_account entry) ≡ false
        → IsDisjoint p b
        → IsDisjoint p (insert_blocking b entry).1
    unfolding insert_blocking
    block-IsDisjoint p b entry free apart a = elim (Bool-cases (blocked b (entry_account entry))) [
      | inl g ↦ rw (insert_blocking, g) (apart a)
      | inr g ↦ elim (Bool-cases (same (entry_account entry) a)) [
        | inl y ↦
            rw (subst (λ z. prioritized p z ≡ false) (same-true (entry_account entry) a y) free)
              refl
        | inr y ↦
            rw
              (
                insert_blocking,
                g,
                lookup-insert (entry_account entry) a entry b.blocked_by_account,
                y,
              )
              (apart a)
      ]
    ]

    pub block-IsSets :
        (s : AccountSets P) (account : Account) (dependency : BlockHash)
        → IsSets s
        → (t : AccountSets P) × (block arith_of s account dependency ≡ some t) × IsSets t
    unfolding block
    block-IsSets s account dependency h =
        let (p, ran, well, left, shorter) = remove_priority-some s.priorities account h.0.0 in
        let original =
          unwrap_or (lookup account s.priorities.by_account)
            (new_entry account arith_of.zero_priority) in
        let entry : BlockingEntry P = record {
          dependency = dependency;
          original_entry = original;
          dependency_account = 0;
        } in
        let apart =
          fewer-IsDisjoint s.priorities p s.blocking s.blocking h.0.2
            (λ a y. ground (arith, left a, y)) (λ a y. y) in
        let (t, trimmed, kept) =
          trim_overflow-IsSets
            (record s { priorities = p; blocking = (insert_blocking s.blocking entry).1 })
            (
              well,
              insert_blocking-IsBlocking s.blocking entry h.0.1,
              block-IsDisjoint p s.blocking entry
                  (rw (removed_account s.priorities account h.0.0, left account, same_refl account)
                    refl)
                  apart,
            ) in
        (t, rw ran (rw trimmed refl), kept)

  stamped-IsSets :
      (s : AccountSets P) (account : Account) (timestamp : Option ℕ)
      → IsSets s
      → IsSets (record s { priorities = change_timestamp s.priorities account timestamp })
  stamped-IsSets s account timestamp h =
      let (well, fewer, sequence) =
        change_timestamp-IsPriorities s.priorities account timestamp h.0.0 in
      (
        (
          well,
          h.0.1,
          fewer-IsDisjoint s.priorities (change_timestamp s.priorities account timestamp) s.blocking
              s.blocking h.0.2 fewer (λ a y. y),
        ),
        rw sequence h.1,
        h.2,
      )

  pub timestamp_set-IsSets :
      (s : AccountSets P) (account : Account) (now : ℕ)
      → IsSets s
      → IsSets (timestamp_set s account now)
  unfolding timestamp_set
  timestamp_set-IsSets s account now h = stamped-IsSets s account (some now) h

  pub timestamp_reset-IsSets :
      (s : AccountSets P) (account : Account) → IsSets s → IsSets (timestamp_reset s account)
  unfolding timestamp_reset
  timestamp_reset-IsSets s account h = stamped-IsSets s account none h

  pub dependency_update-Kept :
      (s : AccountSets P) (dependency : BlockHash) (dependency_account : Account)
      → IsSets s
      → Kept (dependency_update s dependency dependency_account)
  unfolding dependency_update
  dependency_update-Kept s dependency dependency_account h =
      let (r, ran, (well, known, sequence)) =
        modify_dependency_account-some s.blocking dependency dependency_account h.0.1 in
      (
        r.0,
        record s { blocking = r.1 },
        rw ran refl,
        (
          (
            h.0.0,
            well,
            fewer-IsDisjoint s.priorities s.priorities s.blocking r.1 h.0.2 (λ a y. y)
                (λ a y. ground (arith, known a, y)),
          ),
          h.1,
          rw sequence h.2,
        ),
      )
