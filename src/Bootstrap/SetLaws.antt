-- ===== src/Bootstrap/SetLaws.antt =====
-- node/src/bootstrap/ascending/account_sets.rs: that no operation on a single account panics, and that
-- each keeps both sets well formed, apart and within their bounds.
use mathlib.Core.Path.{subst}
use rsbanano_node.Prelude.{
  false, not, ◌&&◌, ◌≤◌, ◌≡◌, refl, Option, some, arith, Bool-cases, inl, inr,
}
use rsbanano_node.Prelude.Order.{Ord, nat_ord}
use rsbanano_node.Prelude.Order.Lookup.{same, same-true}
use rsbanano_node.Core.Types.{Account, is_zero}
use rsbanano_node.Bootstrap.Priorities.{
  PriorityEntry, OrderedPriorities, ChangePriorityResult, updated, deleted, not_found, new_entry,
  prioritized, priorities_len, insert_priority, change_priority,
}
use rsbanano_node.Bootstrap.PriorityLaws.{
  IsPriorities, insert_priority-IsPriorities, insert_priority-added,
}
use rsbanano_node.Bootstrap.PriorityChanges.{change_priority-some}
use rsbanano_node.Bootstrap.Blocking.{OrderedBlocking, blocked}
use rsbanano_node.Bootstrap.AccountSets.{
  AccountSets, PriorityArith, priority_up, priority_down, priority_set_impl, priority_set,
  higher_priority, lower_priority, down_result, inserted_up, updated_up, invalid_up, blocked_up,
  invalid_down,
}
use rsbanano_node.Bootstrap.Trim.{IsDisjoint, IsSets, fewer-IsDisjoint, trim_overflow-IsSets}

module _ {P : Type 0} ⦃o : Ord P⦄ where
  -- An operation does not panic, and keeps the sets well formed.
  abbrev pub Kept : {R : Type 0} → Option (R × AccountSets P) → Type 0
  Kept {R} run = (r : R) × (t : AccountSets P) × (run ≡ some (r, t)) × IsSets t

  -- An account that is not blocked may be prioritised.
  pub insert-IsDisjoint :
      (p : OrderedPriorities P) (b : OrderedBlocking P) (entry : PriorityEntry P)
      → blocked b entry.account ≡ false
      → IsDisjoint p b
      → IsDisjoint (insert_priority p entry).1 b
  insert-IsDisjoint p b entry free apart a =
      elim (Bool-cases (prioritized (insert_priority p entry).1 a)) [
        | inr e ↦ rw e refl
        | inl e ↦ elim (Bool-cases (same entry.account a)) [
          | inl g ↦ rw e (subst (λ z. blocked b z ≡ false) (same-true entry.account a g) free)
          | inr g ↦ ground (arith, apart a, insert_priority-added p entry a e, g, e)
        ]
      ]

  module _ (arith_of : PriorityArith P) where
    up_changed :
        (s : AccountSets P) (account : Account) (r : ChangePriorityResult) (p : OrderedPriorities P)
        → IsSets s
        → is_zero account ≡ false
        → blocked s.blocking account ≡ false
        → change_priority s.priorities account (higher_priority arith_of) ≡ some (r, p)
        → IsPriorities p
        → IsDisjoint p s.blocking
        → priorities_len p ≤ s.config.priorities_max
        → Kept (priority_up arith_of s account)
    unfolding priority_up
    up_changed s account updated p h z b ran well apart bound = (
      updated_up,
      record s { priorities = p },
      rw (priority_up, z, b, ran) refl,
      ((well, h.0.1, apart), bound, h.2),
    )
    up_changed s account deleted p h z b ran well apart bound = (
      updated_up,
      record s { priorities = p },
      rw (priority_up, z, b, ran) refl,
      ((well, h.0.1, apart), bound, h.2),
    )
    up_changed s account not_found p h z b ran well apart bound =
        let entry = new_entry account arith_of.priority_initial in
        let (t, trimmed, kept) =
          trim_overflow-IsSets (record s { priorities = (insert_priority p entry).1 })
            (
              insert_priority-IsPriorities p entry well,
              h.0.1,
              insert-IsDisjoint p s.blocking entry b apart,
            ) in
        (inserted_up, t, rw (priority_up, z, b, ran) (rw trimmed refl), kept)

    pub priority_up-Kept :
        (s : AccountSets P) (account : Account) → IsSets s → Kept (priority_up arith_of s account)
    unfolding priority_up
    priority_up-Kept s account h = elim (Bool-cases (is_zero account)) [
      | inl z ↦ (invalid_up, s, rw (priority_up, z) refl, h)
      | inr z ↦ elim (Bool-cases (blocked s.blocking account)) [
        | inl b ↦ (blocked_up, s, rw (priority_up, z, b) refl, h)
        | inr b ↦
            let (r, p, ran, well, fewer, shorter) =
              change_priority-some s.priorities account (higher_priority arith_of) h.0.0 in
            let apart =
              fewer-IsDisjoint s.priorities p s.blocking s.blocking h.0.2 fewer (λ a y. y) in
            up_changed s account r p h z b ran well apart (omega (arith, shorter, h.1))
      ]
    ]

    pub priority_down-Kept :
        (s : AccountSets P) (account : Account) → IsSets s → Kept (priority_down arith_of s account)
    unfolding priority_down
    priority_down-Kept s account h = elim (Bool-cases (is_zero account)) [
      | inl z ↦ (invalid_down, s, rw (priority_down, z) refl, h)
      | inr z ↦
          let (r, p, ran, well, fewer, shorter) =
            change_priority-some s.priorities account (lower_priority arith_of) h.0.0 in
          let apart =
            fewer-IsDisjoint s.priorities p s.blocking s.blocking h.0.2 fewer (λ a y. y) in
          (
            down_result arith_of r,
            record s { priorities = p },
            rw (priority_down, z, ran) refl,
            ((well, h.0.1, apart), omega (arith, shorter, h.1), h.2),
          )
    ]

    -- The priorities that `priority_set_impl` leaves may stand with the blocked accounts.
    pub priority_set_impl-well :
        (account : Account) (b : OrderedBlocking P) (p : OrderedPriorities P)
        → IsPriorities p
        → IsDisjoint p b
        → IsPriorities (priority_set_impl arith_of account b p).1
          × IsDisjoint (priority_set_impl arith_of account b p).1 b
    unfolding priority_set_impl
    priority_set_impl-well account b p well apart = elim (Bool-cases (is_zero account)) [
      | inl z ↦ rw z (well, apart)
      | inr z ↦ elim (Bool-cases (not (blocked b account) && not (prioritized p account))) [
        | inr g ↦ rw (z, g) (well, apart)
        | inl g ↦
            let entry = new_entry account arith_of.priority_initial in
            rw (z, g)
              (
                insert_priority-IsPriorities p entry well,
                insert-IsDisjoint p b entry (ground (arith, g)) apart,
              )
      ]
    ]

    pub priority_set-Kept :
        (s : AccountSets P) (account : Account) → IsSets s → Kept (priority_set arith_of s account)
    unfolding priority_set
    priority_set-Kept s account h =
        let set = priority_set_impl arith_of account s.blocking s.priorities in
        let well = priority_set_impl-well account s.blocking s.priorities h.0.0 h.0.2 in
        let (t, trimmed, kept) =
          trim_overflow-IsSets (record s { priorities = set.1 }) (well.0, h.0.1, well.1) in
        (set.0, t, rw trimmed refl, kept)
