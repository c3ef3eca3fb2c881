-- ===== src/Insertion/Weights.antt =====
-- The representative weights under an insertion.
use rsbanano_node.Prelude.{
  ℕ, ◌≡◌, ◌≢◌, ◌+◌, ◌<◌, ◌≤◌, none, some, arith, Option-cases, inl, inr, map_or, refl, ◌∙◌,
}
use mathlib.Core.Path.{subst}
use rsbanano_node.Prelude.Table.{get, nat_eq, total, total-le, total-ge}
use rsbanano_node.Prelude.Word.{u128_mod}
use rsbanano_node.Core.Types.{PublicKey}
use rsbanano_node.Core.Amount.{Amount, wrapping_sub}
use rsbanano_node.Core.Block.{Block, hash}
use rsbanano_node.Core.Saved.{SavedBlock, AccountInfo, default_info}
use rsbanano_node.Ledger.Weights.{Weights, stored_weight}
use rsbanano_node.Ledger.Weights.Effects.{
  IsConsistent, Added, share, representation_add-Added, representation_add_dual-Added,
}
use rsbanano_node.Ledger.State.{Ledger, Constants}
use rsbanano_node.Ledger.Valid.{IsValid, balance_sum}
use rsbanano_node.Validation.Helpers.{BlockValidator, new_account_info}
use rsbanano_node.Validation.Validate.{create_instructions}
use rsbanano_node.Validation.Balance.{minted}
use rsbanano_node.Insertion.Factory.{create_validator}
use rsbanano_node.Insertion.Inserter.{update_representative_cache}
use rsbanano_node.Insertion.Process.{process, done}
use rsbanano_node.Insertion.Inverse.{Written, process-Written, old_info}
use rsbanano_node.Insertion.Supply.{total-accounts_after}
use rsbanano_node.Insertion.View.{InRange, view}
use rsbanano_node.Insertion.Keeps.{process-IsValid}

-- What an account's record counts for a representative.
abbrev pub vote_for : PublicKey → AccountInfo → Amount
vote_for r info = share info.representative r info.balance

-- All that the accounts hold which a representative votes for.
abbrev pub voting : PublicKey → Ledger → Amount
voting r l = total (vote_for r) l.accounts

-- Each representative's weight is what the accounts that name it hold, and the cache agrees with it.
pub record WeightsMatch (l : Ledger) : Type 0 where
  pub consistent : IsConsistent l.weights
  pub matched : (r : PublicKey) → stored_weight r l.weights ≡ voting r l

-- How the weight of `r` changes with an account's record.
abbrev change_of : AccountInfo → AccountInfo → PublicKey → Amount
change_of old new r = share old.representative r (wrapping_sub 0 old.balance) + vote_for r new

no_share :
    (w w' : Weights) (rep : PublicKey) (a : Amount)
    → Added w w' (λ r. share rep r a)
    → Added w w' (λ r. share 0 r (wrapping_sub 0 0) + share rep r a)
unfolding wrapping_sub
no_share w w' rep a x = record {
  consistent = x.consistent;
  min_kept = x.min_kept;
  weight = λ r. ground (arith, x.weight r);
}

old_is_default : (v : BlockValidator) → v.old_account_info ≡ none → default_info ≡ old_info v
old_is_default v e = ground arith

old_is : (v : BlockValidator) (i : AccountInfo) → v.old_account_info ≡ some i → i ≡ old_info v
old_is v i e = ground arith

updated-Added :
    (v : BlockValidator) (w w' : Weights)
    → IsConsistent w
    → (map_or v.old_account_info 1 (λ i. i.head) ≢ 0)
    → update_representative_cache (create_instructions v) w ≡ some w'
    → Added w w' (change_of (old_info v) (new_account_info v))
unfolding update_representative_cache create_instructions
updated-Added v w w' k ne h =
    let new = new_account_info v in
    elim (Option-cases v.old_account_info) [
      | inl e ↦
          subst (λ o. Added w w' (change_of o new)) (old_is_default v e)
            (no_share w w' new.representative new.balance
              (representation_add-Added w w' new.representative new.balance k (ground arith)))
      | inr (i, e) ↦
          subst (λ o. Added w w' (change_of o new)) (old_is v i e)
            (representation_add_dual-Added w w' i.representative (wrapping_sub 0 i.balance)
              new.representative new.balance k (ground arith))
    ]

voting-le : (r : PublicKey) (l : Ledger) → voting r l ≤ balance_sum l
voting-le r l = total-le (vote_for r) (λ i. i.balance) l.accounts (λ i. ground arith)

old_balance-le :
    (v : BlockValidator) (l : Ledger)
    → get v.account l.accounts ≡ v.old_account_info
    → (old_info v).balance ≤ balance_sum l
old_balance-le v l o = elim (Option-cases v.old_account_info) [
  | inl e ↦ ground arith
  | inr (i, e) ↦
      ground (arith, total-ge (λ (x : AccountInfo). x.balance) v.account i l.accounts (o ∙ e))
]

-- A representative's weight in the new ledger, from that in the old one.
new_weight :
    (v : BlockValidator) (l l' : Ledger) (s : SavedBlock)
    → IsValid l
    → WeightsMatch l
    → balance_sum l' < u128_mod
    → get v.account l.accounts ≡ v.old_account_info
    → Written v l l' s
    → Added l.weights l'.weights (change_of (old_info v) (new_account_info v))
    → (r : PublicKey) → stored_weight r l'.weights ≡ voting r l'
unfolding wrapping_sub
new_weight v l l' s k m b o w x r = ground (
  arith,
  x.weight r,
  m.matched r,
  w.accounts,
  total-accounts_after (vote_for r) v l.accounts k.accounts_unique o,
  voting-le r l',
  old_balance-le v l o,
  voting-le r l,
  k.bounded,
)

head_nonzero :
    (v : BlockValidator) (l : Ledger)
    → IsValid l
    → get v.account l.accounts ≡ v.old_account_info
    → map_or v.old_account_info 1 (λ i. i.head) ≢ 0
head_nonzero v l k o = elim (Option-cases v.old_account_info) [
  | inl e ↦ λ h. ground arith
  | inr (i, e) ↦ λ h. ground (arith, (k.heads v.account i (o ∙ e)).nonzero)
]

-- Insertion keeps the representative weights in step with the accounts: if in a valid ledger each
-- weight is the sum of the balances that vote for it, and the cache holds the weights that are not
-- below its minimum, then this holds after a block is accepted that mints nothing. The block's
-- hash is not zero, and its balance is within 128 bits.
pub process-WeightsMatch :
    (c : Constants) (now : ℕ) (l l' : Ledger) (b : Block) (s : SavedBlock)
    → IsValid l
    → hash b ≢ 0
    → InRange b
    → minted (view c now l b) ≡ 0
    → WeightsMatch l
    → process c now l b ≡ done (l', s)
    → WeightsMatch l'
unfolding create_validator
process-WeightsMatch c now l l' b s k ne r z m h =
    let v = view c now l b in
    let w = process-Written c now l l' b s ne h in
    let x = updated-Added v l.weights l'.weights m.consistent (head_nonzero v l k refl) w.weights in
    record {
      consistent = x.consistent;
      matched =
          new_weight v l l' s k m
            (omega (arith, (process-IsValid c now l l' b s k ne r z h).bounded)) refl w x;
    }
