-- ===== src/Bootstrap/Unblocked.antt =====
-- node/src/bootstrap/ascending/account_sets.rs: that unblocking an account gives back what blocking took.
use mathlib.Core.Path.{subst}
use rsbanano_node.Prelude.{
  ℕ, zero, suc, true, false, ◌+◌, ◌≤◌, ◌<◌, ◌≡◌, refl, sym, ◌∙◌, ap, some, List, [], ◌∷◌, ◌==◌,
  unwrap_or, arith,
}
use rsbanano_node.Prelude.Lists.{length, length-++}
use rsbanano_node.Prelude.Order.{Ord, nat_ord, lookup}
use rsbanano_node.Prelude.Order.Lookup.{same_refl, lookup-insert}
use rsbanano_node.Core.Types.{BlockHash, is_zero}
use rsbanano_node.Bootstrap.Priorities.{
  PriorityEntry, OrderedPriorities, prioritized, priorities_len, insert_priority,
}
use rsbanano_node.Bootstrap.PriorityLaws.{IsPriorities, remove_priority-some}
use rsbanano_node.Bootstrap.Blocking.{
  BlockingEntry, OrderedBlocking, blocked, blocked_len, insert_blocking,
}
use rsbanano_node.Bootstrap.BlockingLaws.{
  IsBlocking, insert_blocking-IsBlocking, remove_blocking-some,
}
use rsbanano_node.Bootstrap.AccountSets.{
  AccountSets, AccountSetsConfig, PriorityArith, new_sets, block, unblock, trim_overflow,
  trim_priorities, trim_blocking,
}
use rsbanano_node.Bootstrap.Trim.{IsSets}
use rsbanano_node.Bootstrap.Runs.{SetsCall, calls, calls-IsSets}

module _ {P : Type 0} ⦃o : Ord P⦄ where
  trim_priorities_fits :
      (fuel max : ℕ) (q : OrderedPriorities P)
      → 1 ≤ fuel
      → priorities_len q ≤ max
      → trim_priorities fuel max q ≡ some q
  unfolding trim_priorities
  trim_priorities_fits zero max q enough fits = absurd (omega (arith, enough))
  trim_priorities_fits (suc fuel) max q enough fits = ground (arith, fits)

  trim_blocking_fits :
      (fuel max : ℕ) (q : OrderedBlocking P)
      → 1 ≤ fuel
      → blocked_len q ≤ max
      → trim_blocking fuel max q ≡ some q
  unfolding trim_blocking
  trim_blocking_fits zero max q enough fits = absurd (omega (arith, enough))
  trim_blocking_fits (suc fuel) max q enough fits = ground (arith, fits)

  -- Sets within their bounds stay as they are.
  trim_overflow_fits :
      (s : AccountSets P)
      → priorities_len s.priorities ≤ s.config.priorities_max
      → blocked_len s.blocking ≤ s.config.blocking_max
      → trim_overflow s ≡ some s
  unfolding trim_overflow
  trim_overflow_fits s p b =
      rw
        (
          trim_priorities_fits (priorities_len s.priorities + 1) s.config.priorities_max
              s.priorities (omega arith) p,
          trim_blocking_fits (blocked_len s.blocking + 1) s.config.blocking_max s.blocking
              (omega arith) b,
        )
        refl

  inserted_priority :
      (p : OrderedPriorities P) (e : PriorityEntry P)
      → prioritized p e.account ≡ false
      → (lookup e.account (insert_priority p e).1.by_account ≡ some e)
        × (priorities_len (insert_priority p e).1 ≡ priorities_len p + 1)
  unfolding insert_priority length
  inserted_priority p e free = rw free (
    rw (lookup-insert e.account e.account e p.by_account, same_refl e.account) refl,
    length-++ p.sequenced (e.account ∷ []),
  )

  inserted_blocking :
      (b : OrderedBlocking P) (e : BlockingEntry P)
      → blocked b e.original_entry.account ≡ false
      → (lookup e.original_entry.account (insert_blocking b e).1.blocked_by_account ≡ some e)
        × (blocked_len (insert_blocking b e).1 ≡ blocked_len b + 1)
  unfolding insert_blocking length
  inserted_blocking b e free =
      let a = e.original_entry.account in
      rw free (
        rw (lookup-insert a a e b.blocked_by_account, same_refl a) refl,
        length-++ b.blocked_sequence (a ∷ []),
      )

  module _ (arith_of : PriorityArith P) where
    -- A blocked account is no longer prioritised, and its entry is kept.
    abbrev Blocked : AccountSets P → PriorityEntry P → BlockHash → AccountSets P → Type 0
    Blocked s e dependency t =
        (block arith_of s e.account dependency ≡ some t)
        × IsPriorities t.priorities
        × IsBlocking t.blocking
        × (prioritized t.priorities e.account ≡ false)
        × (lookup e.account t.blocking.blocked_by_account
            ≡ some (record { dependency = dependency; original_entry = e; dependency_account = 0 }))
        × (priorities_len t.priorities ≤ priorities_len s.priorities)
        × (blocked_len t.blocking ≤ s.config.blocking_max)
        × (t.config ≡ s.config)

    block-Blocked :
        (s : AccountSets P) (e : PriorityEntry P) (dependency : BlockHash)
        → IsSets s
        → blocked_len s.blocking < s.config.blocking_max
        → lookup e.account s.priorities.by_account ≡ some e
        → (t : AccountSets P) × Blocked s e dependency t
    unfolding block
    block-Blocked s e dependency h room found =
        let entry : BlockingEntry P = record {
          dependency = dependency;
          original_entry = e;
          dependency_account = 0;
        } in
        let (p, ran, well, left, shorter) = remove_priority-some s.priorities e.account h.0.0 in
        let free : blocked s.blocking e.account ≡ false = ground (arith, h.0.2 e.account, found) in
        let (looked, longer) = inserted_blocking s.blocking entry free in
        let t : AccountSets P = record s {
          priorities = p;
          blocking = (insert_blocking s.blocking entry).1;
        } in
        let fits =
          trim_overflow_fits t (omega (arith, shorter, h.1)) (omega (arith, longer, room)) in
        (
          t,
          (
            rw (ran, found) (rw fits refl),
            well,
            insert_blocking-IsBlocking s.blocking entry h.0.1,
            rw (left e.account, same_refl e.account) refl,
            looked,
            shorter,
            omega (arith, longer, room),
            refl,
          ),
        )

    unblock-Blocked :
        (s t : AccountSets P) (e : PriorityEntry P) (dependency : BlockHash)
        → is_zero e.account ≡ false
        → priorities_len s.priorities < s.config.priorities_max
        → Blocked s e dependency t
        → (u : AccountSets P) × (unblock arith_of t e.account (some dependency) ≡ some (true, u))
          × (lookup e.account u.priorities.by_account ≡ some e)
          × (blocked u.blocking e.account ≡ false)
    unfolding unblock
    unblock-Blocked s t e dependency nonzero room h =
        let (b, ran, well, left, shorter) = remove_blocking-some t.blocking e.account h.2 in
        let (looked, longer) = inserted_priority t.priorities e h.3 in
        let u : AccountSets P = record t {
          priorities = (insert_priority t.priorities e).1;
          blocking = b;
        } in
        let fits =
          trim_overflow_fits u (ground (arith, longer, room, h.5, ap (λ c. c.priorities_max) h.7))
            (ground (arith, shorter, h.6, ap (λ c. c.blocking_max) h.7)) in
        let matches : (dependency == dependency) ≡ true = ground arith in
        (
          u,
          rw (nonzero, h.4, matches, ran, nonzero) (rw fits refl),
          looked,
          rw (left e.account, same_refl e.account) refl,
        )

    -- Blocking a prioritised account moves it from one set to the other, and unblocking it
    -- with the hash it waits for moves it back, with the priority and the time stamp it
    -- had. The sets are ones that calls lead to from the empty ones, both have room for one
    -- account more, and the account is not the zero account.
    pub unblock-block :
        (config : AccountSetsConfig) (cs : List SetsCall) (s : AccountSets P) (e : PriorityEntry P)
        (dependency : BlockHash)
        → calls arith_of cs (new_sets config) ≡ some s
        → lookup e.account s.priorities.by_account ≡ some e
        → is_zero e.account ≡ false
        → priorities_len s.priorities < s.config.priorities_max
        → blocked_len s.blocking < s.config.blocking_max
        → (t u : AccountSets P) × (block arith_of s e.account dependency ≡ some t)
          × (prioritized t.priorities e.account ≡ false)
          × (blocked t.blocking e.account ≡ true)
          × (unblock arith_of t e.account (some dependency) ≡ some (true, u))
          × (lookup e.account u.priorities.by_account ≡ some e)
          × (blocked u.blocking e.account ≡ false)
    unblock-block config cs s e dependency ran found nonzero room_p room_b =
        let (v, ran', kept) = calls-IsSets arith_of config cs in
        let h = subst (λ z. IsSets z) (ap (λ z. unwrap_or z s) (sym ran' ∙ ran)) kept in
        let (t, was_blocked) = block-Blocked s e dependency h room_b found in
        let (u, unblocked, back, gone) =
          unblock-Blocked s t e dependency nonzero room_p was_blocked in
        (t, u, was_blocked.0, was_blocked.3, rw was_blocked.4 refl, unblocked, back, gone)
