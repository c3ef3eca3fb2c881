-- ===== src/Ledger/Weights.antt =====
-- ledger/src/rep_weights_updater.rs: the weight of each representative, in the database table and
-- in the cache. `none` is a failed `unwrap` of a deletion.
pub mod Total
pub mod Effects
use rsbanano_node.Prelude.{Option, some, ltb, ◌==◌, ◌||◌, not, if◌then◌else◌, unwrap_or}
use rsbanano_node.Prelude.Table.{Table, get, put, del, erase, nat_eq}
use rsbanano_node.Prelude.Partial.{◌>>=◌}
use rsbanano_node.Core.Types.{PublicKey, is_zero}
use rsbanano_node.Core.Amount.{Amount, wrapping_add}

pub record Weights : Type 0 where
  -- `RepWeightsUpdater::store`
  pub store : Table PublicKey Amount
  pub weight_cache : Table PublicKey Amount
  pub min_weight : Amount

-- `LmdbRepWeightStore::get(…).unwrap_or_default()`
abbrev pub stored_weight : PublicKey → Weights → Amount
stored_weight rep w = unwrap_or (get rep w.store) 0

unfoldable pub put_cache :
    Amount → Table PublicKey Amount → PublicKey → Amount → Table PublicKey Amount
put_cache min_weight weights rep new_weight =
    if ltb new_weight min_weight || is_zero new_weight
    then erase rep weights
    else put rep new_weight weights

unfoldable pub put_store :
    Table PublicKey Amount → PublicKey → Amount → Amount → Option (Table PublicKey Amount)
put_store t rep previous_weight new_weight =
    if is_zero new_weight
    then if not (is_zero previous_weight) then del rep t else some t
    else some (put rep new_weight t)

unfoldable pub representation_put : Weights → PublicKey → Amount → Weights
representation_put w rep weight = record w {
  weight_cache = put_cache w.min_weight w.weight_cache rep weight;
}

unfoldable pub representation_add : Weights → PublicKey → Amount → Option Weights
representation_add w rep amount =
    let previous_weight = stored_weight rep w in
    let new_weight = wrapping_add previous_weight amount in
    do
      store ← put_store w.store rep previous_weight new_weight
      some (record w {
        store = store;
        weight_cache = put_cache w.min_weight w.weight_cache rep new_weight;
      })

add_two : Weights → PublicKey → Amount → PublicKey → Amount → Option Weights
add_two w rep_1 amount_1 rep_2 amount_2 =
    let previous_weight_1 = stored_weight rep_1 w in
    let previous_weight_2 = stored_weight rep_2 w in
    let new_weight_1 = wrapping_add previous_weight_1 amount_1 in
    let new_weight_2 = wrapping_add previous_weight_2 amount_2 in
    do
      store_1 ← put_store w.store rep_1 previous_weight_1 new_weight_1
      store_2 ← put_store store_1 rep_2 previous_weight_2 new_weight_2
      some (record w {
        store = store_2;
        weight_cache =
            put_cache w.min_weight (put_cache w.min_weight w.weight_cache rep_1 new_weight_1) rep_2
              new_weight_2;
      })

unfoldable pub representation_add_dual :
    Weights → PublicKey → Amount → PublicKey → Amount → Option Weights
unfolding add_two
representation_add_dual w rep_1 amount_1 rep_2 amount_2 =
    if not (rep_1 == rep_2)
    then add_two w rep_1 amount_1 rep_2 amount_2
    else representation_add w rep_1 (wrapping_add amount_1 amount_2)
