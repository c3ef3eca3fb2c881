-- ===== src/Bootstrap/AccountSets.antt =====
-- node/src/bootstrap/ascending/account_sets.rs: the accounts that are asked for, by priority, and those
-- that wait for another block. The arithmetic of priorities, on `f64`, and its constants are a record;
-- `Ord P` is the descending order. `none` is a failed `unwrap`, or a loop whose fuel is spent.
use rsbanano_node.Prelude.{
  ℕ, zero, suc, Bool, true, false, not, ◌&&◌, ◌+◌, ◌%◌, ◌/◌, Option, none, some, List, [], ◌∷◌, ltb,
  leb, ◌==◌, if◌then◌else◌, map_or, unwrap_or,
}
use rsbanano_node.Prelude.Partial.{◌>>=◌}
use rsbanano_node.Prelude.Word.{sub_u64, u64_mod}
use rsbanano_node.Prelude.Order.{Ord, nat_ord, lookup, range_from}
use rsbanano_node.Core.Types.{Account, BlockHash, is_zero}
use rsbanano_node.Bootstrap.Priorities.{
  PriorityEntry, OrderedPriorities, ChangePriorityResult, updated, deleted, not_found, new_entry,
  no_priorities, priorities_len, prioritized, insert_priority, remove_priority, pop_priority,
  change_timestamp, change_priority, next_ready, flatten,
}
use rsbanano_node.Bootstrap.Blocking.{
  BlockingEntry, OrderedBlocking, no_blocking, blocked_len, blocked, insert_blocking,
  remove_blocking, pop_blocking, modify_dependency_account, next_blocked,
}

pub record AccountSetsConfig : Type 0 where
  pub consideration_count : ℕ
  pub priorities_max : ℕ
  pub blocking_max : ℕ
  pub cooldown : ℕ

pub record PriorityArith (P : Type 0) : Type 0 where
  pub zero_priority : P
  pub priority_initial : P
  pub priority_increase : P
  pub priority_max : P
  pub priority_cutoff : P
  pub add_priority : P → P → P
  pub divide_priority : P → P

pub record AccountSets (P : Type 0) : Type 0 where
  pub config : AccountSetsConfig
  pub priorities : OrderedPriorities P
  pub blocking : OrderedBlocking P

pub data PriorityUpResult : Type 0 where
  inserted_up updated_up invalid_up blocked_up : PriorityUpResult

pub data PriorityDownResult : Type 0 where
  deprioritized erased account_not_found invalid_down : PriorityDownResult

module _ {P : Type 0} ⦃o : Ord P⦄ where
  abbrev pub new_sets : AccountSetsConfig → AccountSets P
  new_sets config = record { config = config; priorities = no_priorities; blocking = no_blocking }

  -- The loops of `trim_overflow`.
  unfoldable pub trim_priorities : ℕ → ℕ → OrderedPriorities P → Option (OrderedPriorities P)
  trim_priorities zero max q = none
  trim_priorities (suc fuel) max q =
      if ltb max (priorities_len q)
      then (pop_priority q >>= λ popped. trim_priorities fuel max popped.1)
      else some q

  unfoldable pub trim_blocking : ℕ → ℕ → OrderedBlocking P → Option (OrderedBlocking P)
  trim_blocking zero max q = none
  trim_blocking (suc fuel) max q =
      if ltb max (blocked_len q)
      then (pop_blocking q >>= λ popped. trim_blocking fuel max popped.1)
      else some q

  unfoldable pub trim_overflow : AccountSets P → Option (AccountSets P)
  trim_overflow s =
      trim_priorities (priorities_len s.priorities + 1) s.config.priorities_max s.priorities
      >>= λ priorities.
          trim_blocking (blocked_len s.blocking + 1) s.config.blocking_max s.blocking
          >>= λ blocking. some (record s { priorities = priorities; blocking = blocking })

  module _ (arith_of : PriorityArith P) where
    -- The smaller one: `P` is in descending order.
    abbrev pub higher_priority : P → Option P
    higher_priority priority =
        let raised = arith_of.add_priority priority arith_of.priority_increase in
        some (if o.lt raised arith_of.priority_max then arith_of.priority_max else raised)

    abbrev pub lower_priority : P → Option P
    lower_priority priority =
        let lowered = arith_of.divide_priority priority in
        if o.lt lowered arith_of.priority_cutoff then some lowered else none

    unfoldable pub priority_up : AccountSets P → Account → Option (PriorityUpResult × AccountSets P)
    priority_up s account =
        if is_zero account
        then some (invalid_up, s)
        else if not (blocked s.blocking account)
        then (change_priority s.priorities account higher_priority >>= λ changed. elim changed.0 [
          | not_found ↦
              trim_overflow (record s {
                priorities =
                    (insert_priority changed.1 (new_entry account arith_of.priority_initial)).1;
              })
              >>= λ trimmed. some (inserted_up, trimmed)
          | _ ↦ some (updated_up, record s { priorities = changed.1 })
        ])
        else some (blocked_up, s)

    abbrev pub down_result : ChangePriorityResult → PriorityDownResult
    down_result updated = deprioritized
    down_result deleted = erased
    down_result not_found = account_not_found

    unfoldable pub priority_down :
        AccountSets P → Account → Option (PriorityDownResult × AccountSets P)
    priority_down s account =
        if is_zero account
        then some (invalid_down, s)
        else (change_priority s.priorities account lower_priority >>= λ changed.
            some (down_result changed.0, record s { priorities = changed.1 }))

    unfoldable pub priority_set_impl :
        Account → OrderedBlocking P → OrderedPriorities P → Bool × OrderedPriorities P
    priority_set_impl account blocking priorities =
        if is_zero account
        then (false, priorities)
        else if not (blocked blocking account) && not (prioritized priorities account)
        then (true, (insert_priority priorities (new_entry account arith_of.priority_initial)).1)
        else (false, priorities)

    unfoldable pub priority_set : AccountSets P → Account → Option (Bool × AccountSets P)
    priority_set s account =
        let (added, priorities) = priority_set_impl account s.blocking s.priorities in
        trim_overflow (record s { priorities = priorities }) >>= λ trimmed. some (added, trimmed)

    unfoldable pub block : AccountSets P → Account → BlockHash → Option (AccountSets P)
    block s account dependency = remove_priority s.priorities account >>= λ removed.
        let entry = unwrap_or removed.0 (new_entry account arith_of.zero_priority) in
        trim_overflow (record s {
          priorities = removed.1;
          blocking =
              (insert_blocking s.blocking (record {
                dependency = dependency;
                original_entry = entry;
                dependency_account = 0;
              })).1;
        })

    abbrev pub unblocked_entry : BlockingEntry P → Account → PriorityEntry P
    unblocked_entry existing account =
        if not (is_zero existing.original_entry.account)
        then existing.original_entry
        else new_entry account arith_of.priority_initial

    abbrev pub hash_matches : BlockingEntry P → Option BlockHash → Bool
    hash_matches existing hash = map_or hash true (λ h. h == existing.dependency)

    unfoldable pub unblock :
        AccountSets P → Account → Option BlockHash → Option (Bool × AccountSets P)
    unblock s account hash =
        if is_zero account
        then some (false, s)
        else elim (lookup account s.blocking.blocked_by_account) [
          | none ↦ some (false, s)
          | some existing ↦
              if hash_matches existing hash
              then (remove_blocking s.blocking account >>= λ removed.
                  trim_overflow (record s {
                    priorities =
                        (insert_priority s.priorities (unblocked_entry existing account)).1;
                    blocking = removed.1;
                  })
                  >>= λ trimmed. some (true, trimmed))
              else some (false, s)
        ]

    -- The loop of `sync_dependencies` over the accounts that wait for a known account.
    unfoldable pub sync_loop :
        AccountSetsConfig
        → OrderedBlocking P
        → List Account
        → OrderedPriorities P
        → ℕ
        → ℕ
        → Option (ℕ × ℕ × OrderedPriorities P)
    sync_loop config blocking [] priorities inserted insert_failed =
        some (inserted, insert_failed, priorities)
    sync_loop config blocking (a ∷ accounts) priorities inserted insert_failed =
        lookup a blocking.blocked_by_account >>= λ entry.
        if leb config.priorities_max (priorities_len priorities)
        then some (inserted, insert_failed, priorities)
        else (let dep = entry.dependency_account in
            if not (blocked blocking dep) && not (prioritized priorities dep)
            then (let (added, changed) = priority_set_impl dep blocking priorities in
                sync_loop config blocking accounts changed
                  (if added then inserted + 1 else inserted)
                  (if added then insert_failed else insert_failed + 1))
            else sync_loop config blocking accounts priorities inserted insert_failed)

    unfoldable pub sync_dependencies : AccountSets P → Option (ℕ × ℕ × AccountSets P)
    sync_dependencies s =
        sync_loop s.config s.blocking (flatten (range_from 1 s.blocking.by_dependency_account))
          s.priorities 0 0
        >>= λ synced. trim_overflow (record s { priorities = synced.2 }) >>= λ trimmed.
            some (synced.0, synced.1, trimmed)

  unfoldable pub timestamp_set : AccountSets P → Account → ℕ → AccountSets P
  timestamp_set s account now = record s {
    priorities = change_timestamp s.priorities account (some now);
  }

  unfoldable pub timestamp_reset : AccountSets P → Account → AccountSets P
  timestamp_reset s account = record s { priorities = change_timestamp s.priorities account none }

  unfoldable pub dependency_update :
      AccountSets P → BlockHash → Account → Option (ℕ × AccountSets P)
  dependency_update s dependency dependency_account =
      modify_dependency_account s.blocking dependency dependency_account >>= λ modified.
      some (modified.0, record s { blocking = modified.1 })

  -- `now - self.config.cooldown`, on `i64`.
  abbrev pub cutoff : AccountSets P → ℕ → ℕ
  cutoff s now = sub_u64 now (s.config.cooldown % u64_mod)

  unfoldable pub next_priority : AccountSets P → ℕ → (Account → Bool) → Option Account
  next_priority s now filter =
      if priorities_len s.priorities == 0
      then some 0
      else (next_ready s.priorities (cutoff s now) filter >>= λ found. some (unwrap_or found 0))

  unfoldable pub next_blocking : AccountSets P → (BlockHash → Bool) → Option BlockHash
  next_blocking s filter =
      if blocked_len s.blocking == 0
      then some 0
      else (next_blocked s.blocking filter >>= λ found. some (unwrap_or found 0))

  abbrev pub priority_half_full : AccountSets P → Bool
  priority_half_full s = ltb (s.config.priorities_max / 2) (priorities_len s.priorities)

  abbrev pub blocked_half_full : AccountSets P → Bool
  blocked_half_full s = ltb (s.config.blocking_max / 2) (blocked_len s.blocking)
