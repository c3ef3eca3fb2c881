-- ===== src/Bootstrap/Priorities.antt =====
-- node/src/bootstrap/ascending/ordered_priorities.rs: the accounts with their priorities, in the order
-- in which they came and in that of the priorities. `P` is `Priority` with the descending order of
-- `PriorityKeyDesc` (priority.rs). A time stamp is an `i64`, in two's complement. `none` is a failed
-- `unwrap`.
use rsbanano_node.Prelude.{
  ℕ, Bool, true, false, Option, none, some, List, [], ◌∷◌, ◌++◌, if◌then◌else◌, is_some, map_or,
}
use rsbanano_node.Prelude.Partial.{◌>>=◌}
use rsbanano_node.Prelude.Lists.{length}
use rsbanano_node.Prelude.Word.{lt_i64}
use rsbanano_node.Prelude.Order.{Ord, nat_ord, TreeMap, lookup, insert, remove}
use rsbanano_node.Prelude.Order.Lookup.{same}
use rsbanano_node.Prelude.Index.{push_index, drop_index, without}
use rsbanano_node.Core.Types.{Account}

pub record PriorityEntry (P : Type 0) : Type 0 where
  pub account : Account
  pub priority : P
  pub timestamp : Option ℕ

pub record OrderedPriorities (P : Type 0) : Type 0 where
  pub by_account : TreeMap Account (PriorityEntry P)
  pub sequenced : List Account
  pub by_priority : TreeMap P (List Account)

pub data ChangePriorityResult : Type 0 where
  updated deleted not_found : ChangePriorityResult

module _ {P : Type 0} ⦃o : Ord P⦄ where
  abbrev pub new_entry : Account → P → PriorityEntry P
  new_entry account priority = record { account = account; priority = priority; timestamp = none }

  abbrev pub no_priorities : OrderedPriorities P
  no_priorities = record { by_account = []; sequenced = []; by_priority = [] }

  abbrev pub priorities_len : OrderedPriorities P → ℕ
  priorities_len q = length q.sequenced

  abbrev pub get_priority : OrderedPriorities P → Account → Option (PriorityEntry P)
  get_priority q account = lookup account q.by_account

  abbrev pub prioritized : OrderedPriorities P → Account → Bool
  prioritized q account = is_some (lookup account q.by_account)

  unfoldable pub insert_priority :
      OrderedPriorities P → PriorityEntry P → Bool × OrderedPriorities P
  insert_priority q entry = if prioritized q entry.account then (false, q) else (
    true,
    record {
      by_account = insert entry.account entry q.by_account;
      sequenced = q.sequenced ++ entry.account ∷ [];
      by_priority = push_index entry.priority entry.account q.by_priority;
    },
  )

  -- The entry of an account that has one is taken from the map and from both orders.
  unfoldable pub take_entry :
      OrderedPriorities P
      → Account
      → PriorityEntry P
      → Option (PriorityEntry P × OrderedPriorities P)
  take_entry q account entry = drop_index entry.priority account q.by_priority >>= λ by_priority.
      some (
        entry,
        record {
          by_account = remove account q.by_account;
          sequenced = without account q.sequenced;
          by_priority = by_priority;
        },
      )

  unfoldable pub remove_account :
      OrderedPriorities P → Account → Option (PriorityEntry P × OrderedPriorities P)
  remove_account q account = lookup account q.by_account >>= λ entry. take_entry q account entry

  unfoldable pub remove_priority :
      OrderedPriorities P → Account → Option (Option (PriorityEntry P) × OrderedPriorities P)
  remove_priority q account = elim (lookup account q.by_account) [
    | none ↦ some (none, q)
    | some entry ↦ take_entry q account entry >>= λ taken. some (some taken.0, taken.1)
  ]

  unfoldable pub pop_priority :
      OrderedPriorities P → Option (Option (PriorityEntry P) × OrderedPriorities P)
  pop_priority q = elim q.sequenced [
    | [] ↦ some (none, q)
    | account ∷ rest ↦ remove_account (record q { sequenced = rest }) account >>= λ taken.
        some (some taken.0, taken.1)
  ]

  unfoldable pub change_timestamp : OrderedPriorities P → Account → Option ℕ → OrderedPriorities P
  change_timestamp q account timestamp = elim (lookup account q.by_account) [
    | none ↦ q
    | some entry ↦ record q {
      by_account = insert account (record entry { timestamp = timestamp }) q.by_account;
    }
  ]

  -- The account moves from the list of its old priority to the end of that of the new one.
  abbrev pub moved : OrderedPriorities P → Account → P → P → Option (TreeMap P (List Account))
  moved q account old_prio new_prio =
      if same old_prio new_prio
      then some q.by_priority
      else drop_index old_prio account q.by_priority >>= λ dropped.
          some (push_index new_prio account dropped)

  unfoldable pub change_priority :
      OrderedPriorities P
      → Account
      → (P → Option P)
      → Option (ChangePriorityResult × OrderedPriorities P)
  change_priority q account f = elim (lookup account q.by_account) [
    | none ↦ some (not_found, q)
    | some entry ↦ elim (f entry.priority) [
      | none ↦ take_entry q account entry >>= λ taken. some (deleted, taken.1)
      | some new_prio ↦ moved q account entry.priority new_prio >>= λ by_priority. some (
        updated,
        record q {
          by_account = insert account (record entry { priority = new_prio }) q.by_account;
          by_priority = by_priority;
        },
      )
    ]
  ]

  abbrev pub flatten : TreeMap P (List Account) → List Account
  flatten [] = []
  flatten ((p, accounts) ∷ m) = accounts ++ flatten m

  abbrev pub is_ready : ℕ → (Account → Bool) → PriorityEntry P → Bool
  is_ready cutoff filter entry =
      if map_or entry.timestamp false (λ ts. lt_i64 cutoff ts) then false else filter entry.account

  -- The first account of a list whose entry is ready.
  abbrev pub find_ready :
      TreeMap Account (PriorityEntry P)
      → ℕ
      → (Account → Bool)
      → List Account
      → Option (Option Account)
  find_ready m cutoff filter [] = some none
  find_ready m cutoff filter (a ∷ rest) = elim (lookup a m) [
    | none ↦ none
    | some entry ↦
        if is_ready cutoff filter entry
        then some (some entry.account)
        else find_ready m cutoff filter rest
  ]

  unfoldable pub next_ready : OrderedPriorities P → ℕ → (Account → Bool) → Option (Option Account)
  next_ready q cutoff filter = find_ready q.by_account cutoff filter (flatten q.by_priority)
