-- ===== src/Bootstrap/Runs.antt =====
-- node/src/bootstrap/ascending/account_sets.rs: the operations of the account sets in any order, from
-- the empty ones on.
use rsbanano_node.Prelude.{ℕ, Bool, ◌≡◌, refl, Option, some, List, [], ◌∷◌, arith}
use rsbanano_node.Prelude.Partial.{◌>>=◌}
use rsbanano_node.Prelude.Order.{Ord, lookup}
use rsbanano_node.Prelude.Lists.{length}
use rsbanano_node.Core.Types.{Account, BlockHash}
use rsbanano_node.Bootstrap.AccountSets.{
  AccountSets, AccountSetsConfig, PriorityArith, new_sets, priority_up, priority_down, priority_set,
  block, unblock, sync_dependencies, timestamp_set, timestamp_reset, dependency_update,
  next_priority, next_blocking,
}
use rsbanano_node.Bootstrap.Trim.{IsSets}
use rsbanano_node.Bootstrap.SetLaws.{priority_up-Kept, priority_down-Kept, priority_set-Kept}
use rsbanano_node.Bootstrap.BlockedLaws.{
  block-IsSets, unblock-Kept, timestamp_set-IsSets, timestamp_reset-IsSets, dependency_update-Kept,
}
use rsbanano_node.Bootstrap.Asked.{next_priority-some, next_blocking-some}
use rsbanano_node.Bootstrap.Sync.{sync_dependencies-IsSets}

-- The calls of the sets, with their arguments.
pub data SetsCall : Type 0 where
  up down set reset : Account → SetsCall
  stamp : Account → ℕ → SetsCall
  block_on : Account → BlockHash → SetsCall
  unblock_with : Account → Option BlockHash → SetsCall
  learn : BlockHash → Account → SetsCall
  sync_all : SetsCall
  ask : ℕ → (Account → Bool) → SetsCall
  ask_blocking : (BlockHash → Bool) → SetsCall

module _ {P : Type 0} ⦃o : Ord P⦄ (arith_of : PriorityArith P) where
  unfoldable pub call : SetsCall → AccountSets P → Option (AccountSets P)
  call (up a) s = priority_up arith_of s a >>= λ r. some r.1
  call (down a) s = priority_down arith_of s a >>= λ r. some r.1
  call (set a) s = priority_set arith_of s a >>= λ r. some r.1
  call (reset a) s = some (timestamp_reset s a)
  call (stamp a now) s = some (timestamp_set s a now)
  call (block_on a dependency) s = block arith_of s a dependency
  call (unblock_with a hash) s = unblock arith_of s a hash >>= λ r. some r.1
  call (learn dependency a) s = dependency_update s dependency a >>= λ r. some r.1
  call sync_all s = sync_dependencies arith_of s >>= λ r. some r.2
  call (ask now filter) s = next_priority s now filter >>= λ a. some s
  call (ask_blocking filter) s = next_blocking s filter >>= λ h. some s

  unfoldable pub calls : List SetsCall → AccountSets P → Option (AccountSets P)
  calls [] s = some s
  calls (c ∷ cs) s = call c s >>= λ t. calls cs t

  call-IsSets :
      (c : SetsCall) (s : AccountSets P)
      → IsSets s
      → (t : AccountSets P) × (call c s ≡ some t) × IsSets t
  unfolding call
  call-IsSets (up a) s h =
      let (r, t, ran, kept) = priority_up-Kept arith_of s a h in (t, rw ran refl, kept)
  call-IsSets (down a) s h =
      let (r, t, ran, kept) = priority_down-Kept arith_of s a h in (t, rw ran refl, kept)
  call-IsSets (set a) s h =
      let (r, t, ran, kept) = priority_set-Kept arith_of s a h in (t, rw ran refl, kept)
  call-IsSets (reset a) s h = (timestamp_reset s a, refl, timestamp_reset-IsSets s a h)
  call-IsSets (stamp a now) s h = (timestamp_set s a now, refl, timestamp_set-IsSets s a now h)
  call-IsSets (block_on a dependency) s h = block-IsSets arith_of s a dependency h
  call-IsSets (unblock_with a hash) s h =
      let (r, t, ran, kept) = unblock-Kept arith_of s a hash h in (t, rw ran refl, kept)
  call-IsSets (learn dependency a) s h =
      let (r, t, ran, kept) = dependency_update-Kept s dependency a h in (t, rw ran refl, kept)
  call-IsSets sync_all s h =
      let (i, f, t, ran, kept) = sync_dependencies-IsSets arith_of s h in (t, rw ran refl, kept)
  call-IsSets (ask now filter) s h =
      let (a, ran) = next_priority-some s now filter h in (s, rw ran refl, h)
  call-IsSets (ask_blocking filter) s h =
      let (dependency, ran) = next_blocking-some s filter h in (s, rw ran refl, h)

  calls_kept :
      (cs : List SetsCall) (s : AccountSets P)
      → IsSets s
      → (t : AccountSets P) × (calls cs s ≡ some t) × IsSets t
  unfolding calls
  calls_kept [] s h = (s, refl, h)
  calls_kept (c ∷ cs) s h =
      let (t, ran, kept) = call-IsSets c s h in
      let (u, rest, left) = calls_kept cs t kept in (u, rw ran rest, left)

  new_sets-IsSets : (config : AccountSetsConfig) → IsSets (new_sets {P = P} config)
  unfolding lookup length
  new_sets-IsSets config = (
    (
      (tt, λ a e found. absurd (ground (arith, found)), λ a. refl, (tt, λ p a. refl)),
      (
        tt,
        λ a e found. absurd (ground (arith, found)),
        λ a. refl,
        (tt, λ p a. refl),
        (tt, λ p a. refl),
        (tt, λ p a. refl),
      ),
      λ a. refl,
    ),
    omega arith,
    omega arith,
  )

  -- Whatever is called on the account sets, the operations that change them and the two
  -- searches for what to ask next, from the empty ones on and in any order, no call panics
  -- and all loops end. Afterwards the orders that each set keeps beside its map hold the
  -- accounts of the map, each once and in the list of its value, no account is both
  -- prioritised and blocked, and both sets keep within their configured sizes.
  pub calls-IsSets :
      (config : AccountSetsConfig) (cs : List SetsCall)
      → (t : AccountSets P) × (calls cs (new_sets config) ≡ some t) × IsSets t
  calls-IsSets config cs = calls_kept cs (new_sets config) (new_sets-IsSets config)
