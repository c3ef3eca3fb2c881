-- ===== src/Bootstrap/Sampling.antt =====
-- node/src/bootstrap/ascending/account_sets.rs: which account is asked for next.
use mathlib.Core.Path.{subst}
use rsbanano_node.Prelude.{
  ℕ, Bool, true, false, ◌&&◌, ◌+◌, ◌^◌, ◌<◌, ◌≡◌, sym, ◌∙◌, ap, some, List, unwrap_or, leb, not,
  arith,
}
use rsbanano_node.Prelude.Word.{lt_i64}
use rsbanano_node.Prelude.Order.{Ord, nat_ord, lookup}
use rsbanano_node.Core.Types.{Account}
use rsbanano_node.Bootstrap.Priorities.{PriorityEntry, is_ready}
use rsbanano_node.Bootstrap.AccountSets.{
  AccountSets, AccountSetsConfig, PriorityArith, new_sets, cutoff, next_priority,
}
use rsbanano_node.Bootstrap.Runs.{SetsCall, calls, calls-IsSets}
use rsbanano_node.Bootstrap.Asked.{next_ready-highest}
use rsbanano_node.Bootstrap.Trim.{IsSets}

module _ {P : Type 0} ⦃o : Ord P⦄ where
  -- In account sets that calls lead to from the empty ones, where an account passes the
  -- filter and has no time stamp after the cutoff, the time less the cooldown in signed words
  -- of 64 bits, the next account to ask is one of which the same holds, and the other has no
  -- higher priority.
  pub next_priority-ready :
      (arith_of : PriorityArith P) (config : AccountSetsConfig) (cs : List SetsCall)
      (s : AccountSets P) (now : ℕ) (filter : Account → Bool) (b : Account) (f : PriorityEntry P)
      → calls arith_of cs (new_sets config) ≡ some s
      → lookup b s.priorities.by_account ≡ some f
      → is_ready (cutoff s now) filter f ≡ true
      → (a : Account) × (e : PriorityEntry P) × (next_priority s now filter ≡ some a)
        × (lookup a s.priorities.by_account ≡ some e)
        × (is_ready (cutoff s now) filter e ≡ true)
        × (o.lt f.priority e.priority ≡ false)
  next_priority-ready arith_of config cs s now filter b f ran found r =
      let (t, ran', kept) = calls-IsSets arith_of config cs in
      next_ready-highest s now filter b f
        (subst (λ z. IsSets z) (ap (λ z. unwrap_or z s) (sym ran' ∙ ran)) kept) found r

  -- An account that was asked at some time is ready again just when the cooldown has passed
  -- since and it passes the filter, also in the time before the first cooldown is over, where
  -- the cutoff is negative. The times and the cooldown are below 2^63.
  pub is_ready-cutoff :
      (s : AccountSets P) (now ts : ℕ) (filter : Account → Bool) (account : Account) (priority : P)
      → now < 2 ^ 63
      → ts < 2 ^ 63
      → s.config.cooldown < 2 ^ 63
      → is_ready
          (cutoff s now)
          filter
          (record { account = account; priority = priority; timestamp = some ts })
        ≡ (leb (ts + s.config.cooldown) now && filter account)
  is_ready-cutoff s now ts filter account priority small_now small_ts small_cooldown =
      let passed : lt_i64 (cutoff s now) ts ≡ not (leb (ts + s.config.cooldown) now) =
        ground (arith, small_now, small_ts, small_cooldown) in
      ground (arith, passed)
