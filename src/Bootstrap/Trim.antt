-- ===== src/Bootstrap/Trim.antt =====
-- node/src/bootstrap/ascending/account_sets.rs: `trim_overflow` keeps both sets within their bounds.
use rsbanano_node.Prelude.{
  ℕ, zero, suc, true, false, ◌&&◌, ◌+◌, ◌≤◌, ◌<◌, ◌≡◌, refl, some, ltb, arith, Bool-cases, inl, inr,
}
use rsbanano_node.Prelude.Order.{Ord, nat_ord}
use rsbanano_node.Core.Types.{Account}
use rsbanano_node.Bootstrap.Priorities.{OrderedPriorities, prioritized, priorities_len}
use rsbanano_node.Bootstrap.PriorityLaws.{IsPriorities, pop_priority-some}
use rsbanano_node.Bootstrap.Blocking.{OrderedBlocking, blocked, blocked_len}
use rsbanano_node.Bootstrap.BlockingLaws.{IsBlocking}
use rsbanano_node.Bootstrap.BlockingPops.{pop_blocking-some}
use rsbanano_node.Bootstrap.AccountSets.{AccountSets, trim_priorities, trim_blocking, trim_overflow}

module _ {P : Type 0} ⦃o : Ord P⦄ where
  -- No account is in both sets.
  abbrev pub IsDisjoint : OrderedPriorities P → OrderedBlocking P → Type 0
  IsDisjoint p b = (a : Account) → prioritized p a && blocked b a ≡ false

  -- Both sets are well formed and share no account.
  abbrev pub IsPaired : AccountSets P → Type 0
  IsPaired s =
      IsPriorities s.priorities × IsBlocking s.blocking × IsDisjoint s.priorities s.blocking

  -- Both sets keep within their bounds besides.
  abbrev pub IsSets : AccountSets P → Type 0
  IsSets s =
      IsPaired s
      × (priorities_len s.priorities ≤ s.config.priorities_max)
      × (blocked_len s.blocking ≤ s.config.blocking_max)

  trim_priorities-some :
      (fuel max : ℕ) (q : OrderedPriorities P)
      → IsPriorities q
      → priorities_len q < fuel
      → (q' : OrderedPriorities P) × (trim_priorities fuel max q ≡ some q')
        × IsPriorities q'
        × ((a : Account) → prioritized q' a ≡ true → prioritized q a ≡ true)
        × (priorities_len q' ≤ max)
  unfolding trim_priorities
  trim_priorities-some zero max q h enough = absurd (omega (arith, enough))
  trim_priorities-some (suc fuel) max q h enough = elim (Bool-cases (ltb max (priorities_len q))) [
    | inr b ↦ (q, rw (trim_priorities, b) refl, h, λ a p. p, ground (arith, b))
    | inl b ↦
        let (popped, q1, ran, left, fewer, shorter) = pop_priority-some q h in
        let (q', trimmed, left', fewer', bound) =
          trim_priorities-some fuel max q1 left (ground (arith, shorter, b, enough)) in
        (q', rw (trim_priorities, b, ran) trimmed, left', λ a p. fewer a (fewer' a p), bound)
  ]

  trim_blocking-some :
      (fuel max : ℕ) (q : OrderedBlocking P)
      → IsBlocking q
      → blocked_len q < fuel
      → (q' : OrderedBlocking P) × (trim_blocking fuel max q ≡ some q')
        × IsBlocking q'
        × ((a : Account) → blocked q' a ≡ true → blocked q a ≡ true)
        × (blocked_len q' ≤ max)
  unfolding trim_blocking
  trim_blocking-some zero max q h enough = absurd (omega (arith, enough))
  trim_blocking-some (suc fuel) max q h enough = elim (Bool-cases (ltb max (blocked_len q))) [
    | inr b ↦ (q, rw (trim_blocking, b) refl, h, λ a p. p, ground (arith, b))
    | inl b ↦
        let (popped, q1, (ran, left, fewer, shorter)) = pop_blocking-some q h in
        let (q', trimmed, left', fewer', bound) =
          trim_blocking-some fuel max q1 left (ground (arith, shorter, b, enough)) in
        (q', rw (trim_blocking, b, ran) trimmed, left', λ a p. fewer a (fewer' a p), bound)
  ]

  pub fewer-IsDisjoint :
      (p p' : OrderedPriorities P) (b b' : OrderedBlocking P)
      → IsDisjoint p b
      → ((a : Account) → prioritized p' a ≡ true → prioritized p a ≡ true)
      → ((a : Account) → blocked b' a ≡ true → blocked b a ≡ true)
      → IsDisjoint p' b'
  fewer-IsDisjoint p p' b b' apart fewer_p fewer_b a = elim (Bool-cases (prioritized p' a)) [
    | inr e ↦ rw e refl
    | inl e ↦ elim (Bool-cases (blocked b' a)) [
      | inr g ↦ rw (e, g) refl
      | inl g ↦ absurd (ground (arith, apart a, fewer_p a e, fewer_b a g))
    ]
  ]

  -- The trimming never panics, and leaves both sets within their bounds.
  pub trim_overflow-IsSets :
      (s : AccountSets P) → IsPaired s → (t : AccountSets P) × (trim_overflow s ≡ some t) × IsSets t
  unfolding trim_overflow
  trim_overflow-IsSets s h =
      let (p, ran_p, well_p, fewer_p, bound_p) =
        trim_priorities-some (priorities_len s.priorities + 1) s.config.priorities_max s.priorities
          h.0 (omega arith) in
      let (b, ran_b, well_b, fewer_b, bound_b) =
        trim_blocking-some (blocked_len s.blocking + 1) s.config.blocking_max s.blocking h.1
          (omega arith) in
      (
        record s { priorities = p; blocking = b },
        rw (trim_overflow, ran_p, ran_b) refl,
        (
          (well_p, well_b, fewer-IsDisjoint s.priorities p s.blocking b h.2 fewer_p fewer_b),
          bound_p,
          bound_b,
        ),
      )
