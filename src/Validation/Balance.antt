-- ===== src/Validation/Balance.antt =====
-- The balance equation of an accepted block: what the account gains and what it puts up for others
-- is what it held and what it takes up, and what an epoch link lets it make up.
use rsbanano_node.Prelude.{◌+◌, ◌-◌, ◌<◌, ◌≡◌, refl, arith, if◌then◌else◌, map_or}
use rsbanano_node.Prelude.Word.{u128_mod}
use rsbanano_node.Core.Amount.{Amount, add, sub}
use rsbanano_node.Core.Block.{
  Block, SendBlock, ReceiveBlock, OpenBlock, ChangeBlock, StateBlock, legacy_send, legacy_receive,
  legacy_open, legacy_change, state, balance_field,
}
use rsbanano_node.Validation.Helpers.{
  BlockValidator, previous_balance, is_receive, is_send, amount_received, amount_sent, old_balance,
  new_balance, pending_amount, new_pending_info, amount, has_epoch_link,
}
use rsbanano_node.Validation.Accepted.{Accepted, send-le, receives_pending, no_link_no_receive}

-- The amount of the pending entry that is deleted.
abbrev pub taken : BlockValidator → Amount
taken v = if is_receive v then pending_amount v else 0

-- The amount of the pending entry that is made.
abbrev pub offered : BlockValidator → Amount
offered v = map_or (new_pending_info v) 0 (λ p. p.1.amount)

-- By how much a state block with an epoch link raises the balance.
abbrev pub minted : BlockValidator → Amount
minted v = elim v.block [
  | state b ↦ if has_epoch_link v b then b.balance - previous_balance v else 0
  | _ ↦ 0
]

abbrev pub Balances : BlockValidator → Type 0
Balances v = new_balance v + offered v ≡ old_balance v + taken v + minted v

-- Bounds that the types and the ledger give.
pub record Bounded (v : BlockValidator) : Type 0 where
  pub linked : previous_balance v ≡ old_balance v
  pub receivable : old_balance v + pending_amount v < u128_mod
  pub in_range : map_or (balance_field v.block) 0 (λ x. x) < u128_mod

send-Balances :
    (v : BlockValidator) (b : SendBlock)
    → v.block ≡ legacy_send b
    → Accepted v
    → Bounded v
    → Balances v
unfolding new_balance new_pending_info amount_sent amount_received is_receive add sub
send-Balances v b e a k = ground (arith, send-le v b e a.no_negative)

receive-Balances :
    (v : BlockValidator) (b : ReceiveBlock)
    → v.block ≡ legacy_receive b
    → Accepted v
    → Bounded v
    → Balances v
unfolding new_balance new_pending_info amount_sent amount_received is_receive add sub
receive-Balances v b e a k = ground arith

open-Balances :
    (v : BlockValidator) (b : OpenBlock)
    → v.block ≡ legacy_open b
    → Accepted v
    → Bounded v
    → Balances v
unfolding new_balance new_pending_info amount_sent amount_received is_receive add sub
open-Balances v b e a k = ground arith

change-Balances :
    (v : BlockValidator) (b : ChangeBlock)
    → v.block ≡ legacy_change b
    → Accepted v
    → Bounded v
    → Balances v
unfolding new_balance new_pending_info amount_sent amount_received is_receive add sub
change-Balances v b e a k = ground arith

state-Balances :
    (v : BlockValidator) (b : StateBlock) → v.block ≡ state b → Accepted v → Bounded v → Balances v
unfolding new_balance new_pending_info amount_sent amount_received is_receive is_send amount add sub
state-Balances v b e a k =
    ground (
      arith,
      no_link_no_receive v b e a.no_change_without_link,
      receives_pending v a.pending_correct,
    )

Balances-of : (v : BlockValidator) (b : Block) → v.block ≡ b → Accepted v → Bounded v → Balances v
Balances-of v (legacy_send b) e a k = send-Balances v b e a k
Balances-of v (legacy_receive b) e a k = receive-Balances v b e a k
Balances-of v (legacy_open b) e a k = open-Balances v b e a k
Balances-of v (legacy_change b) e a k = change-Balances v b e a k
Balances-of v (state b) e a k = state-Balances v b e a k

pub Accepted-Balances : (v : BlockValidator) → Accepted v → Bounded v → Balances v
Accepted-Balances v a k = Balances-of v v.block refl a k
