-- ===== src/Tests/Sets.antt =====
-- The account sets of the bootstrapper at small inputs, with room for a few accounts in each set.
-- The priorities are hundredths.
use rsbanano_node.Prelude.{
  ℕ, true, false, ◌+◌, ◌&&◌, leb, ◌/◌, ◌≡◌, refl, some, none, List, [], ◌∷◌, arith, ltb,
}
use rsbanano_node.Prelude.Order.{Ord, nat_ord, lookup, insert, remove}
use rsbanano_node.Bootstrap.AccountSets.{
  AccountSets, AccountSetsConfig, PriorityArith, new_sets, priority_up, trim_overflow,
  trim_priorities, trim_blocking, next_priority, cutoff, timestamp_set, block, unblock,
}
use rsbanano_node.Prelude.Lists.{length}
use rsbanano_node.Prelude.Index.{push_index, drop_index}
use rsbanano_node.Bootstrap.Priorities.{
  PriorityEntry, insert_priority, change_priority, change_timestamp, next_ready, is_ready,
  prioritized,
}
use rsbanano_node.Bootstrap.Blocking.{no_blocking, blocked}
use rsbanano_node.Bootstrap.Unblocked.{unblock-block}
use rsbanano_node.Bootstrap.Sampling.{next_priority-ready, is_ready-cutoff}
use rsbanano_node.Bootstrap.Trim.{IsSets}
use rsbanano_node.Bootstrap.Runs.{
  SetsCall, up, down, set, stamp, block_on, unblock_with, learn, sync_all, ask, ask_blocking, call,
  calls, calls-IsSets,
}

falls : (a b c : ℕ) → ltb b a ≡ true → ltb c b ≡ true → ltb c a ≡ true
falls a b c h k = ground arith

meets : (a b : ℕ) → ltb b a ≡ false → ltb a b ≡ false → a ≡ b
meets a b h k = ground arith

abbrev descending : Ord ℕ
descending = record {
  lt = λ a b. ltb b a;
  lt_irrefl = λ a. ground arith;
  lt_trans = falls;
  lt_total = meets;
}

abbrev hundredths : PriorityArith ℕ
hundredths = record {
  zero_priority = 0;
  priority_initial = 200;
  priority_increase = 200;
  priority_max = 12800;
  priority_cutoff = 15;
  add_priority = λ a b. a + b;
  divide_priority = λ a. a / 2;
}

abbrev small_config : AccountSetsConfig
small_config = record {
  consideration_count = 4;
  priorities_max = 2;
  blocking_max = 2;
  cooldown = 3;
}

-- The third account pushes the first out; the second is blocked until it is unblocked.
abbrev small_run : List SetsCall
small_run =
    up 1
    ∷ up 2
    ∷ up 2
    ∷ block_on 2 77
    ∷ learn 77 9
    ∷ sync_all
    ∷ set 3
    ∷ down 3
    ∷ unblock_with 2 (some 77)
    ∷ stamp 2 100
    ∷ ask 101 (λ a. true)
    ∷ ask_blocking (λ h. true)
    ∷ []

calls-IsSets_example :
    (t : AccountSets ℕ) × (calls ⦃o = descending⦄ hundredths small_run
        (new_sets ⦃o = descending⦄ small_config)
      ≡ some t)
    × IsSets ⦃o = descending⦄ t
calls-IsSets_example = calls-IsSets ⦃o = descending⦄ hundredths small_config small_run

abbrev wide_config : AccountSetsConfig
wide_config = record small_config { priorities_max = 5 }

-- Three accounts, two of a higher priority, one of which was asked at time 0.
abbrev asked_accounts : AccountSets ℕ
asked_accounts = record {
  config = wide_config;
  priorities = record {
    by_account =
        (1, record { account = 1; priority = 200; timestamp = none })
        ∷ (2, record { account = 2; priority = 400; timestamp = some 0 })
        ∷ (3, record { account = 3; priority = 400; timestamp = none })
        ∷ [];
    sequenced = 1 ∷ 2 ∷ 3 ∷ [];
    by_priority = (400, 2 ∷ 3 ∷ []) ∷ (200, 1 ∷ []) ∷ [];
  };
  blocking = no_blocking ⦃o = descending⦄;
}

abbrev asked_run : List SetsCall
asked_run = up 1 ∷ up 2 ∷ up 2 ∷ stamp 2 0 ∷ up 3 ∷ up 3 ∷ []

asked_accounts_reached :
    calls ⦃o = descending⦄ hundredths asked_run (new_sets ⦃o = descending⦄ wide_config)
    ≡ some asked_accounts
unfolding calls call priority_up change_priority insert_priority trim_overflow trim_priorities
    trim_blocking push_index drop_index insert remove lookup length timestamp_set change_timestamp
asked_accounts_reached = refl

-- At time 1 the second account is still in its cooldown: it is the third one that is asked.
third_is_asked : next_priority ⦃o = descending⦄ asked_accounts 1 (λ x. true) ≡ some 3
unfolding next_priority next_ready lookup length
third_is_asked = refl

next_priority-ready_example :
    (a : ℕ) × (e : PriorityEntry ℕ) × (next_priority ⦃o = descending⦄ asked_accounts 1 (λ x. true)
      ≡ some a)
    × (lookup a asked_accounts.priorities.by_account ≡ some e)
    × (is_ready ⦃o = descending⦄ (cutoff ⦃o = descending⦄ asked_accounts 1) (λ x. true) e ≡ true)
    × (descending.lt 200 e.priority ≡ false)
unfolding lookup
next_priority-ready_example =
    next_priority-ready ⦃o = descending⦄ hundredths wide_config asked_run asked_accounts 1
      (λ x. true) 1 (record { account = 1; priority = 200; timestamp = none })
      asked_accounts_reached refl refl

is_ready-cutoff_example :
    is_ready ⦃o = descending⦄
      (cutoff ⦃o = descending⦄ asked_accounts 1)
      (λ x. true)
      (record { account = 2; priority = 400; timestamp = some 0 })
    ≡ (leb (0 + 3) 1 && true)
is_ready-cutoff_example =
    is_ready-cutoff ⦃o = descending⦄ asked_accounts 1 0 (λ x. true) 2 400 (omega arith)
      (omega arith) (omega arith)

-- One account, with room for another.
abbrev one_account : AccountSets ℕ
one_account = record {
  config = small_config;
  priorities = record {
    by_account = (1, record { account = 1; priority = 400; timestamp = none }) ∷ [];
    sequenced = 1 ∷ [];
    by_priority = (400, 1 ∷ []) ∷ [];
  };
  blocking = no_blocking ⦃o = descending⦄;
}

one_account_reached :
    calls ⦃o = descending⦄ hundredths (up 1 ∷ up 1 ∷ []) (new_sets ⦃o = descending⦄ small_config)
    ≡ some one_account
unfolding calls call priority_up change_priority insert_priority trim_overflow trim_priorities
    trim_blocking push_index drop_index insert remove lookup length
one_account_reached = refl

abbrev first_entry : PriorityEntry ℕ
first_entry = record { account = 1; priority = 400; timestamp = none }

unblock-block_example :
    (t u : AccountSets ℕ) × (block ⦃o = descending⦄ hundredths one_account 1 77 ≡ some t)
    × (prioritized ⦃o = descending⦄ t.priorities 1 ≡ false)
    × (blocked ⦃o = descending⦄ t.blocking 1 ≡ true)
    × (unblock ⦃o = descending⦄ hundredths t 1 (some 77) ≡ some (true, u))
    × (lookup 1 u.priorities.by_account ≡ some first_entry)
    × (blocked ⦃o = descending⦄ u.blocking 1 ≡ false)
unfolding lookup length
unblock-block_example =
    unblock-block ⦃o = descending⦄ hundredths small_config (up 1 ∷ up 1 ∷ []) one_account
      first_entry 77 one_account_reached refl refl (omega arith) (omega arith)
