-- ===== src/Insertion/View.antt =====
-- What the validator's view of a valid ledger satisfies.
use rsbanano_node.Prelude.{
  ℕ, ◌≤◌, ◌<◌, ◌≡◌, none, some, Option, arith, Option-cases, inl, inr, map_or, refl,
}
use rsbanano_node.Prelude.Table.{get, nat_eq, total-ge}
use rsbanano_node.Prelude.Word.{u128_mod}
use rsbanano_node.Core.Block.{Block, balance_field}
use rsbanano_node.Core.Saved.{AccountInfo, PendingInfo, pending_keys}
use rsbanano_node.Ledger.State.{Ledger, Constants}
use rsbanano_node.Ledger.Valid.{IsValid, balance_sum, pending_sum}
use rsbanano_node.Validation.Helpers.{BlockValidator, previous_balance, old_balance, pending_amount}
use rsbanano_node.Validation.Accepted.{Accepted, previous-head, previous-new}
use rsbanano_node.Validation.Balance.{Bounded}
use rsbanano_node.Insertion.Factory.{
  create_validator, load_previous_block, load_pending, account_of, receive_key,
}

-- The amounts of a block are words of 128 bits.
abbrev pub InRange : Block → Type 0
InRange b = map_or (balance_field b) 0 (λ x. x) < u128_mod

module _ (c : Constants) (now : ℕ) (l : Ledger) (b : Block) where
  abbrev pub view : BlockValidator
  view = create_validator c l now b

  linked_to :
      IsValid l
      → Accepted view
      → (o : Option AccountInfo) → view.old_account_info ≡ o
      → previous_balance view ≡ old_balance view
  unfolding create_validator load_previous_block
  linked_to k a none e = ground (arith, previous-new view a.previous_correct e)
  linked_to k a (some info) e =
      let h = k.heads view.account info e in
      ground (arith, previous-head view info a.previous_correct e, h.found, h.nonzero, h.balance)

  old_balance-le : old_balance view ≤ balance_sum l
  unfolding create_validator
  old_balance-le = elim (Option-cases (get (account_of l b) l.accounts)) [
    | inl e ↦ ground arith
    | inr (info, e) ↦
        ground (arith, total-ge (λ (i : AccountInfo). i.balance) (account_of l b) info l.accounts e)
  ]

  pending_amount-le : pending_amount view ≤ pending_sum l
  unfolding create_validator load_pending
  pending_amount-le = elim (Option-cases (get (receive_key l b) l.pending)) [
    | inl e ↦ ground arith
    | inr (p, e) ↦
        ground (arith, total-ge (λ (i : PendingInfo). i.amount) (receive_key l b) p l.pending e)
  ]

  pub view-Bounded : IsValid l → InRange b → Accepted view → Bounded view
  unfolding create_validator
  view-Bounded k r a = record {
    linked = linked_to k a view.old_account_info refl;
    receivable = omega (arith, k.bounded, old_balance-le, pending_amount-le);
    in_range = r;
  }
