-- ===== src/Transport/FairQueue.antt =====
-- node/src/transport/fair_queue.rs: the queues of several sources that are served in turn. `Stop` is
-- a failed `unwrap`, or the loop of `seek_next` where its fuel is spent.
pub mod Rotation
pub mod Seek
pub mod Shape
pub mod Served
pub mod Batch
pub mod Info
use rsbanano_node.Prelude.{
  ℕ, zero, suc, Bool, true, false, not, ◌+◌, ◌*◌, Option, none, some, List, [], ◌∷◌, ◌++◌, ltb, leb,
  ◌==◌, if◌then◌else◌, unwrap_or, map_or,
}
use rsbanano_node.Prelude.Word.{add_u64, sub_u64}
use rsbanano_node.Prelude.Check.{Result, ok, err, ◌>>=◌}
use rsbanano_node.Prelude.Lists.{length}
use rsbanano_node.Prelude.Order.{Ord, TreeMap, lookup, insert, remove, range_from}
use rsbanano_node.Network.TokenBucket.{min}

pub data Stop : Type 0 where
  panicked endless : Stop

pub record Entry (T : Type 0) : Type 0 where
  pub requests : List T
  pub priority : ℕ
  pub max_size : ℕ

pub record FairQueue (S T : Type 0) : Type 0 where
  pub queues : TreeMap S (Entry T)
  pub current_queue_key : Option S
  pub counter : ℕ
  pub total_len : ℕ
  pub max_size_query : S → ℕ
  pub priority_query : S → ℕ

module _ {T : Type 0} where
  abbrev pub new_entry : ℕ → ℕ → Entry T
  new_entry max_size priority = record { requests = []; priority = priority; max_size = max_size }

  abbrev pub entry_len : Entry T → ℕ
  entry_len e = length e.requests

  abbrev pub entry_is_empty : Entry T → Bool
  entry_is_empty e = entry_len e == 0

  unfoldable pub pop_entry : Entry T → Option (T × Entry T)
  pop_entry e = elim e.requests [ [] ↦ none | x ∷ xs ↦ some (x, record e { requests = xs }) ]

  unfoldable pub push_entry : Entry T → T → Bool × Entry T
  push_entry e request =
      if ltb (entry_len e) e.max_size
      then (true, record e { requests = e.requests ++ request ∷ [] })
      else (false, e)

module _ {S T : Type 0} ⦃o : Ord S⦄ where
  unfoldable pub new_queue : (S → ℕ) → (S → ℕ) → FairQueue S T
  new_queue max_size_query priority_query = record {
    queues = [];
    current_queue_key = none;
    counter = 0;
    total_len = 0;
    max_size_query = max_size_query;
    priority_query = priority_query;
  }

  abbrev pub sum_len : TreeMap S (Entry T) → ℕ
  sum_len [] = 0
  sum_len ((k, e) ∷ m) = entry_len e + sum_len m

  -- The entries whose keys the range has.
  abbrev pub in_range : (S → Bool) → TreeMap S (Entry T) → TreeMap S (Entry T)
  in_range p [] = []
  in_range p ((k, e) ∷ m) = if p k then (k, e) ∷ in_range p m else in_range p m

  unfoldable pub sum_queue_len : FairQueue S T → (S → Bool) → ℕ
  sum_queue_len q range = sum_len (in_range range q.queues)

  unfoldable pub queue_len : FairQueue S T → S → ℕ
  queue_len q source = map_or (lookup source q.queues) 0 entry_len

  unfoldable pub max_len : FairQueue S T → S → ℕ
  max_len q source = map_or (lookup source q.queues) 0 (λ e. e.max_size)

  unfoldable pub priority_of : FairQueue S T → S → ℕ
  priority_of q source = map_or (lookup source q.queues) 0 (λ e. e.priority)

  abbrev pub len : FairQueue S T → ℕ
  len q = q.total_len

  abbrev pub is_empty : FairQueue S T → Bool
  is_empty q = len q == 0

  abbrev pub queues_len : FairQueue S T → ℕ
  queues_len q = length q.queues

  unfoldable pub clear : FairQueue S T → FairQueue S T
  clear q = record q { queues = [] }

  -- The entry of a source, made where there is none.
  abbrev pub entry : FairQueue S T → S → Entry T
  entry q source =
      unwrap_or (lookup source q.queues)
        (new_entry (q.max_size_query source) (q.priority_query source))

  unfoldable pub push : FairQueue S T → S → T → Bool × FairQueue S T
  push q source item =
      let (added, pushed) = push_entry (entry q source) item in
      (
        added,
        record q {
          queues = insert source pushed q.queues;
          total_len = if added then add_u64 q.total_len 1 else q.total_len;
        },
      )

  unfoldable pub should_seek : FairQueue S T → Bool
  should_seek q = elim q.current_queue_key [
    | none ↦ true
    | some key ↦ elim (lookup key q.queues) [
      | none ↦ true
      | some queue ↦ if entry_is_empty queue then true else leb queue.priority q.counter
    ]
  ]

  -- The key behind the first pair of a range.
  abbrev pub second_key : TreeMap S (Entry T) → Option S
  second_key [] = none
  second_key ((k, e) ∷ []) = none
  second_key ((k, e) ∷ (j, d) ∷ m) = some j

  abbrev pub first_key : TreeMap S (Entry T) → Option S
  first_key [] = none
  first_key ((k, e) ∷ m) = some k

  abbrev pub following : TreeMap S (Entry T) → Option S → Option S
  following m none = none
  following m (some current) = second_key (range_from current m)

  abbrev pub or_first : TreeMap S (Entry T) → Option S → Option S
  or_first m none = first_key m
  or_first m (some k) = some k

  -- The loop of `seek_next`, with the key that it starts from.
  unfoldable pub seek : ℕ → TreeMap S (Entry T) → Option S → Result Stop S
  seek zero m current = err endless
  seek (suc fuel) m current = elim (or_first m (following m current)) [
    | none ↦ err panicked
    | some key ↦ elim (lookup key m) [
      | none ↦ err panicked
      | some queue ↦ if not (entry_is_empty queue) then ok key else seek fuel m (some key)
    ]
  ]

  -- Two rounds over the keys.
  abbrev pub seek_fuel : TreeMap S (Entry T) → ℕ
  seek_fuel m = 2 * length m + 1

  unfoldable pub seek_next : FairQueue S T → Result Stop (FairQueue S T)
  seek_next q = seek (seek_fuel q.queues) q.queues q.current_queue_key >>= λ key.
      ok (record q { current_queue_key = some key; counter = 0 })

  -- What `next` does once the key is chosen.
  unfoldable pub take_current : FairQueue S T → Result Stop (Option (S × T) × FairQueue S T)
  take_current q = elim q.current_queue_key [
    | none ↦ ok (none, q)
    | some key ↦ elim (lookup key q.queues) [
      | none ↦ err panicked
      | some queue ↦ elim (pop_entry queue) [
        | none ↦ err panicked
        | some popped ↦ ok (
          some (key, popped.0),
          record q {
            queues = insert key popped.1 q.queues;
            counter = add_u64 q.counter 1;
            total_len = sub_u64 q.total_len 1;
          },
        )
      ]
    ]
  ]

  unfoldable pub next : FairQueue S T → Result Stop (Option (S × T) × FairQueue S T)
  next q = (if should_seek q then seek_next q else ok q) >>= take_current

  -- The loop of `next_batch`, whose count is known.
  unfoldable pub batch : ℕ → FairQueue S T → Result Stop (List (S × T) × FairQueue S T)
  batch zero q = ok ([], q)
  batch (suc count) q = next q >>= λ step. elim step.0 [
    | none ↦ err panicked
    | some item ↦ batch count step.1 >>= λ rest. ok (item ∷ rest.0, rest.1)
  ]

  unfoldable pub next_batch : FairQueue S T → ℕ → Result Stop (List (S × T) × FairQueue S T)
  next_batch q max_count = batch (min (len q) max_count) q

  unfoldable pub remove_queue : FairQueue S T → S → FairQueue S T
  remove_queue q key = elim (lookup key q.queues) [
    | none ↦ q
    | some removed ↦ record q {
      queues = remove key q.queues;
      total_len = sub_u64 q.total_len (entry_len removed);
      current_queue_key = none;
    }
  ]
