-- ===== src/Bootstrap/Blocking.antt =====
-- node/src/bootstrap/ascending/ordered_blocking.rs: the blocked accounts with what they wait for, in
-- the order in which they came and in those of priority, dependency and dependency account. `none` is
-- a failed `unwrap`.
use rsbanano_node.Prelude.{
  ℕ, Bool, true, false, ◌+◌, Option, none, some, List, [], ◌∷◌, ◌++◌, ◌==◌, if◌then◌else◌, is_some,
  map_or,
}
use rsbanano_node.Prelude.Partial.{◌>>=◌}
use rsbanano_node.Prelude.Lists.{length}
use rsbanano_node.Prelude.Order.{Ord, nat_ord, TreeMap, lookup, insert, remove}
use rsbanano_node.Prelude.Index.{push_index, drop_index, drop_single, without, values}
use rsbanano_node.Core.Types.{Account, BlockHash}
use rsbanano_node.Bootstrap.Priorities.{PriorityEntry}

pub record BlockingEntry (P : Type 0) : Type 0 where
  pub dependency : BlockHash
  pub original_entry : PriorityEntry P
  pub dependency_account : Account

pub record OrderedBlocking (P : Type 0) : Type 0 where
  pub blocked_by_account : TreeMap Account (BlockingEntry P)
  pub blocked_sequence : List Account
  pub blocked_by_priority : TreeMap P (List Account)
  pub by_dependency : TreeMap BlockHash (List Account)
  pub by_dependency_account : TreeMap Account (List Account)

module _ {P : Type 0} ⦃o : Ord P⦄ where
  abbrev pub entry_priority : BlockingEntry P → P
  entry_priority e = e.original_entry.priority

  abbrev pub entry_account : BlockingEntry P → Account
  entry_account e = e.original_entry.account

  abbrev pub no_blocking : OrderedBlocking P
  no_blocking = record {
    blocked_by_account = [];
    blocked_sequence = [];
    blocked_by_priority = [];
    by_dependency = [];
    by_dependency_account = [];
  }

  abbrev pub blocked_len : OrderedBlocking P → ℕ
  blocked_len q = length q.blocked_sequence

  abbrev pub blocked : OrderedBlocking P → Account → Bool
  blocked q account = is_some (lookup account q.blocked_by_account)

  unfoldable pub insert_blocking : OrderedBlocking P → BlockingEntry P → Bool × OrderedBlocking P
  insert_blocking q entry = if blocked q (entry_account entry) then (false, q) else (
    true,
    record {
      blocked_by_account = insert (entry_account entry) entry q.blocked_by_account;
      blocked_sequence = q.blocked_sequence ++ entry_account entry ∷ [];
      blocked_by_priority =
          push_index (entry_priority entry) (entry_account entry) q.blocked_by_priority;
      by_dependency = push_index entry.dependency (entry_account entry) q.by_dependency;
      by_dependency_account =
          push_index entry.dependency_account (entry_account entry) q.by_dependency_account;
    },
  )

  unfoldable pub count_by_dependency_account : OrderedBlocking P → Account → ℕ
  count_by_dependency_account q dep_account =
      map_or (lookup dep_account q.by_dependency_account) 0 (λ accs. length accs)

  -- `remove_indexes`, and the map without the entry.
  unfoldable pub remove_blocked :
      OrderedBlocking P → Account → BlockingEntry P → Option (OrderedBlocking P)
  remove_blocked q account entry =
      drop_index (entry_priority entry) (entry_account entry) q.blocked_by_priority
      >>= λ by_priority.
          drop_index entry.dependency (entry_account entry) q.by_dependency >>= λ by_dependency.
          drop_index entry.dependency_account (entry_account entry) q.by_dependency_account
          >>= λ by_dependency_account. some (record {
            blocked_by_account = remove account q.blocked_by_account;
            blocked_sequence = without (entry_account entry) q.blocked_sequence;
            blocked_by_priority = by_priority;
            by_dependency = by_dependency;
            by_dependency_account = by_dependency_account;
          })

  unfoldable pub remove_blocking :
      OrderedBlocking P → Account → Option (Option (BlockingEntry P) × OrderedBlocking P)
  remove_blocking q account = elim (lookup account q.blocked_by_account) [
    | none ↦ some (none, q)
    | some entry ↦ remove_blocked q account entry >>= λ left. some (some entry, left)
  ]

  unfoldable pub pop_blocking :
      OrderedBlocking P → Option (Option (BlockingEntry P) × OrderedBlocking P)
  pop_blocking q = elim q.blocked_sequence [
    | [] ↦ some (none, q)
    | account ∷ rest ↦ remove_blocking (record q { blocked_sequence = rest }) account
  ]

  -- One turn of the loop of `modify_dependency_account`.
  unfoldable pub modify_one : OrderedBlocking P → Account → Account → Option (ℕ × OrderedBlocking P)
  modify_one q account new_dependency_account = lookup account q.blocked_by_account >>= λ entry.
      if entry.dependency_account == new_dependency_account
      then some (0, q)
      else (drop_single entry.dependency_account (entry_account entry) q.by_dependency_account
          >>= λ dropped. some (
            1,
            record q {
              blocked_by_account =
                  insert account (record entry { dependency_account = new_dependency_account })
                    q.blocked_by_account;
              by_dependency_account =
                  push_index new_dependency_account (entry_account entry) dropped;
            },
          ))

  unfoldable pub modify_all :
      OrderedBlocking P → List Account → Account → Option (ℕ × OrderedBlocking P)
  modify_all q [] new_dependency_account = some (0, q)
  modify_all q (account ∷ accounts) new_dependency_account =
      modify_one q account new_dependency_account >>= λ first.
      modify_all first.1 accounts new_dependency_account >>= λ rest. some (first.0 + rest.0, rest.1)

  unfoldable pub modify_dependency_account :
      OrderedBlocking P → BlockHash → Account → Option (ℕ × OrderedBlocking P)
  modify_dependency_account q dependency new_dependency_account =
      modify_all q (values dependency q.by_dependency) new_dependency_account

  abbrev pub find_dependency :
      OrderedBlocking P → (BlockHash → Bool) → List Account → Option (Option BlockHash)
  find_dependency q filter [] = some none
  find_dependency q filter (a ∷ accounts) = elim (lookup a q.blocked_by_account) [
    | none ↦ none
    | some e ↦
        if filter e.dependency then some (some e.dependency) else find_dependency q filter accounts
  ]

  -- The first entry whose dependency account is not known.
  unfoldable pub next_blocked : OrderedBlocking P → (BlockHash → Bool) → Option (Option BlockHash)
  next_blocked q filter = find_dependency q filter (values 0 q.by_dependency_account)
