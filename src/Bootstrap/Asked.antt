-- ===== src/Bootstrap/Asked.antt =====
-- node/src/bootstrap/ascending/account_sets.rs: the account and the hash that are asked for next.
use rsbanano_node.Prelude.{
  ℕ, Bool, true, false, ◌≤◌, ◌≡◌, refl, Option, none, some, List, [], ◌∷◌, ◌==◌, unwrap_or, arith,
  Bool-cases, Option-cases, inl, inr,
}
use rsbanano_node.Prelude.Lists.{length}
use rsbanano_node.Prelude.Order.{Ord, nat_ord, lookup}
use rsbanano_node.Prelude.Order.Lookup.{same-true, same_refl}
use rsbanano_node.Prelude.Index.{values, count}
use rsbanano_node.Core.Types.{Account}
use rsbanano_node.Bootstrap.Priorities.{
  PriorityEntry, OrderedPriorities, is_ready, next_ready, priorities_len,
}
use rsbanano_node.Bootstrap.AccountSets.{AccountSets, cutoff, next_priority, next_blocking}
use rsbanano_node.Bootstrap.Blocking.{OrderedBlocking, find_dependency, next_blocked, blocked_len}
use rsbanano_node.Bootstrap.BlockingPops.{AllBlocked, counted-AllBlocked}
use rsbanano_node.Core.Types.{BlockHash}
use rsbanano_node.Bootstrap.Trim.{IsSets}
use rsbanano_node.Bootstrap.PriorityLaws.{IsPriorities}
use rsbanano_node.Bootstrap.Choice.{IsOrdered, chosen}

counted-length :
    (b : Account) (sequenced : List Account)
    → 1 ≤ count b sequenced
    → (length sequenced == 0) ≡ false
unfolding length
counted-length b [] some_b = absurd (omega (arith, some_b))
counted-length b (a ∷ sequenced) some_b = ground arith

module _ {P : Type 0} ⦃o : Ord P⦄ where
  listed-IsOrdered :
      (q : OrderedPriorities P) (cutoff : ℕ) (filter : Account → Bool)
      → IsPriorities q
      → IsOrdered q.by_account cutoff filter q.by_priority
  listed-IsOrdered q cutoff filter h p a some_a = elim (Option-cases (lookup a q.by_account)) [
    | inl e ↦ ground (arith, h.3.1 p a, some_a, e)
    | inr (entry, e) ↦ (entry, e, same-true entry.priority p (ground (arith, h.3.1 p a, some_a, e)))
  ]

  pub next_ready-highest :
      (s : AccountSets P) (now : ℕ) (filter : Account → Bool) (b : Account) (f : PriorityEntry P)
      → IsSets s
      → lookup b s.priorities.by_account ≡ some f
      → is_ready (cutoff s now) filter f ≡ true
      → (a : Account) × (e : PriorityEntry P) × (next_priority s now filter ≡ some a)
        × (lookup a s.priorities.by_account ≡ some e)
        × (is_ready (cutoff s now) filter e ≡ true)
        × (o.lt f.priority e.priority ≡ false)
  unfolding next_priority next_ready
  next_ready-highest s now filter b f h found r =
      let q = s.priorities in
      let listed : 1 ≤ count b (values f.priority q.by_priority) =
        ground (arith, h.0.0.3.1 f.priority b, found, same_refl f.priority) in
      let some_there = counted-length b q.sequenced (ground (arith, h.0.0.2 b, found)) in
      elim (chosen q.by_account (cutoff s now) filter q.by_priority h.0.0.1 h.0.0.3.0
        (listed-IsOrdered q (cutoff s now) filter h.0.0)) [
          | inl t ↦ ground (arith, t.1 f.priority b listed, found, r)
          | inr t ↦ (
            t.0.account,
            t.0,
            rw (some_there, t.1) refl,
            t.2,
            t.3,
            t.4 f.priority b listed (rw found r),
          )
        ]

  -- The search for the next account never panics.
  pub next_priority-some :
      (s : AccountSets P) (now : ℕ) (filter : Account → Bool)
      → IsSets s
      → (a : Account) × (next_priority s now filter ≡ some a)
  unfolding next_priority next_ready
  next_priority-some s now filter h = elim (Bool-cases (priorities_len s.priorities == 0)) [
    | inl b ↦ (0, rw b refl)
    | inr b ↦
        let q = s.priorities in
        elim (chosen q.by_account (cutoff s now) filter q.by_priority h.0.0.1 h.0.0.3.0
          (listed-IsOrdered q (cutoff s now) filter h.0.0)) [
            | inl t ↦ (0, rw (b, t.0) refl)
            | inr t ↦ (t.0.account, rw (b, t.1) refl)
          ]
  ]

  find_dependency-some :
      (q : OrderedBlocking P) (filter : BlockHash → Bool) (accounts : List Account)
      → AllBlocked q accounts
      → (found : Option BlockHash) × (find_dependency q filter accounts ≡ some found)
  find_dependency-some q filter [] all = (none, refl)
  find_dependency-some q filter (a ∷ accounts) all =
      elim (Option-cases (lookup a q.blocked_by_account)) [
        | inl e ↦ absurd (ground (arith, all.0, e))
        | inr (entry, e) ↦ elim (Bool-cases (filter entry.dependency)) [
          | inl b ↦ (some entry.dependency, rw (find_dependency, e, b) refl)
          | inr b ↦
              let (found, ran) = find_dependency-some q filter accounts all.1 in
              (found, rw (find_dependency, e, b) ran)
        ]
      ]

  -- Nor does the search for the next dependency.
  pub next_blocking-some :
      (s : AccountSets P) (filter : BlockHash → Bool)
      → IsSets s
      → (h : BlockHash) × (next_blocking s filter ≡ some h)
  unfolding next_blocking next_blocked
  next_blocking-some s filter h = elim (Bool-cases (blocked_len s.blocking == 0)) [
    | inl b ↦ (0, rw b refl)
    | inr b ↦
        let q = s.blocking in
        let unknown = values 0 q.by_dependency_account in
        let (found, ran) =
          find_dependency-some q filter unknown
            (counted-AllBlocked q unknown (λ a some_a. ground (arith, h.0.1.5.1 0 a, some_a))) in
        (unwrap_or found 0, rw (b, ran) refl)
  ]
