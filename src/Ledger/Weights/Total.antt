-- ===== src/Ledger/Weights/Total.antt =====
-- The deletions of the weight updates.
use rsbanano_node.Prelude.{◌≡◌, ◌≢◌, true, some, arith, is_some, Option-cases, inl, inr}
use rsbanano_node.Prelude.Table.{Table, get, del, nat_eq, get-put_ne, get-erase_ne}
use rsbanano_node.Core.Types.{PublicKey}
use rsbanano_node.Core.Amount.{Amount, wrapping_add}
use rsbanano_node.Ledger.Weights.{
  Weights, stored_weight, put_store, representation_add, add_two, representation_add_dual,
}

-- A deletion is made where a weight that is not zero was read.
put_store-some :
    (t : Table PublicKey Amount) (rep : PublicKey) (previous new : Amount)
    → (previous ≢ 0 → is_some (get rep t) ≡ true)
    → is_some (put_store t rep previous new) ≡ true
unfolding put_store del
put_store-some t rep previous new h = ground arith

read_weight :
    (w : Weights) (rep : PublicKey) → stored_weight rep w ≢ 0 → is_some (get rep w.store) ≡ true
read_weight w rep h = ground arith

-- A change at one representative leaves the entry of another in place.
put_store-other :
    (t t' : Table PublicKey Amount) (rep other : PublicKey) (previous new : Amount)
    → rep ≢ other
    → put_store t rep previous new ≡ some t'
    → get other t' ≡ get other t
unfolding put_store del
put_store-other t t' rep other previous new ne h =
    ground (arith, get-put_ne rep other new t ne, get-erase_ne rep other t ne)

pub representation_add-some :
    (w : Weights) (rep : PublicKey) (amount : Amount)
    → is_some (representation_add w rep amount) ≡ true
unfolding representation_add
representation_add-some w rep amount =
    let previous = stored_weight rep w in
    ground (
      arith,
      put_store-some w.store rep previous (wrapping_add previous amount) (read_weight w rep),
    )

add_two-some :
    (w : Weights) (rep_1 : PublicKey) (amount_1 : Amount) (rep_2 : PublicKey) (amount_2 : Amount)
    → rep_1 ≢ rep_2
    → is_some (add_two w rep_1 amount_1 rep_2 amount_2) ≡ true
unfolding add_two
add_two-some w rep_1 amount_1 rep_2 amount_2 ne =
    let previous_1 = stored_weight rep_1 w in
    let previous_2 = stored_weight rep_2 w in
    let new_1 = wrapping_add previous_1 amount_1 in
    let new_2 = wrapping_add previous_2 amount_2 in
    elim (Option-cases (put_store w.store rep_1 previous_1 new_1)) [
      | inl e ↦ ground (arith, put_store-some w.store rep_1 previous_1 new_1 (read_weight w rep_1))
      | inr (t, e) ↦
          let kept = put_store-other w.store t rep_1 rep_2 previous_1 new_1 ne e in
          ground
            (arith, put_store-some t rep_2 previous_2 new_2 (λ h. rw kept (read_weight w rep_2 h)))
    ]

-- The updates of the representative weights never panic.
pub representation_add_dual-some :
    (w : Weights) (rep_1 : PublicKey) (amount_1 : Amount) (rep_2 : PublicKey) (amount_2 : Amount)
    → is_some (representation_add_dual w rep_1 amount_1 rep_2 amount_2) ≡ true
unfolding representation_add_dual
representation_add_dual-some w rep_1 amount_1 rep_2 amount_2 = ground (
  arith,
  add_two-some w rep_1 amount_1 rep_2 amount_2,
  representation_add-some w rep_1 (wrapping_add amount_1 amount_2),
)
