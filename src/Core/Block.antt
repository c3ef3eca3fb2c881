-- ===== src/Core/Block.antt =====
-- core/src/blocks: the five kinds of block and the fields that they share. The hash is a field, as
-- in the source, where it is computed by Blake2b when a block is made.
use rsbanano_node.Prelude.{ℕ, Bool, true, false, Option, none, some, if◌then◌else◌, not, unwrap_or}
use rsbanano_node.Core.Types.{Account, BlockHash, PublicKey, Link, Root, Signature, is_zero}
use rsbanano_node.Core.Amount.{Amount}
use rsbanano_node.Core.BlockType.{
  BlockType, valid_send_block_predecessor, valid_receive_block_predecessor,
  valid_change_block_predecessor,
}

pub record SendBlock : Type 0 where
  pub previous : BlockHash
  pub destination : Account
  pub balance : Amount
  pub signature : Signature
  pub work : ℕ
  pub hash : BlockHash

pub record ReceiveBlock : Type 0 where
  pub previous : BlockHash
  pub source : BlockHash
  pub signature : Signature
  pub work : ℕ
  pub hash : BlockHash

pub record OpenBlock : Type 0 where
  pub source : BlockHash
  pub representative : PublicKey
  pub account : Account
  pub signature : Signature
  pub work : ℕ
  pub hash : BlockHash

pub record ChangeBlock : Type 0 where
  pub previous : BlockHash
  pub representative : PublicKey
  pub signature : Signature
  pub work : ℕ
  pub hash : BlockHash

pub record StateBlock : Type 0 where
  pub account : Account
  pub previous : BlockHash
  pub representative : PublicKey
  pub balance : Amount
  pub link : Link
  pub signature : Signature
  pub work : ℕ
  pub hash : BlockHash

pub data Block : Type 0 where
  legacy_send : SendBlock → Block
  legacy_receive : ReceiveBlock → Block
  legacy_open : OpenBlock → Block
  legacy_change : ChangeBlock → Block
  state : StateBlock → Block

abbrev pub block_type : Block → BlockType
block_type (legacy_send b) = BlockType.legacy_send
block_type (legacy_receive b) = BlockType.legacy_receive
block_type (legacy_open b) = BlockType.legacy_open
block_type (legacy_change b) = BlockType.legacy_change
block_type (state b) = BlockType.state

abbrev pub account_field : Block → Option Account
account_field (legacy_send b) = none
account_field (legacy_receive b) = none
account_field (legacy_open b) = some b.account
account_field (legacy_change b) = none
account_field (state b) = some b.account

abbrev pub hash : Block → BlockHash
hash (legacy_send b) = b.hash
hash (legacy_receive b) = b.hash
hash (legacy_open b) = b.hash
hash (legacy_change b) = b.hash
hash (state b) = b.hash

abbrev pub link_field : Block → Option Link
link_field (legacy_send b) = none
link_field (legacy_receive b) = none
link_field (legacy_open b) = none
link_field (legacy_change b) = none
link_field (state b) = some b.link

abbrev pub signature : Block → Signature
signature (legacy_send b) = b.signature
signature (legacy_receive b) = b.signature
signature (legacy_open b) = b.signature
signature (legacy_change b) = b.signature
signature (state b) = b.signature

abbrev pub work : Block → ℕ
work (legacy_send b) = b.work
work (legacy_receive b) = b.work
work (legacy_open b) = b.work
work (legacy_change b) = b.work
work (state b) = b.work

abbrev pub previous : Block → BlockHash
previous (legacy_send b) = b.previous
previous (legacy_receive b) = b.previous
previous (legacy_open b) = 0
previous (legacy_change b) = b.previous
previous (state b) = b.previous

abbrev pub root : Block → Root
root (legacy_send b) = b.previous
root (legacy_receive b) = b.previous
root (legacy_open b) = b.account
root (legacy_change b) = b.previous
root (state b) = if not (is_zero b.previous) then b.previous else b.account

abbrev pub balance_field : Block → Option Amount
balance_field (legacy_send b) = some b.balance
balance_field (legacy_receive b) = none
balance_field (legacy_open b) = none
balance_field (legacy_change b) = none
balance_field (state b) = some b.balance

abbrev pub source_field : Block → Option BlockHash
source_field (legacy_send b) = none
source_field (legacy_receive b) = some b.source
source_field (legacy_open b) = some b.source
source_field (legacy_change b) = none
source_field (state b) = none

abbrev pub representative_field : Block → Option PublicKey
representative_field (legacy_send b) = none
representative_field (legacy_receive b) = none
representative_field (legacy_open b) = some b.representative
representative_field (legacy_change b) = some b.representative
representative_field (state b) = some b.representative

abbrev pub destination_field : Block → Option Account
destination_field (legacy_send b) = some b.destination
destination_field (legacy_receive b) = none
destination_field (legacy_open b) = none
destination_field (legacy_change b) = none
destination_field (state b) = none

abbrev pub valid_predecessor : Block → BlockType → Bool
valid_predecessor (legacy_send b) t = valid_send_block_predecessor t
valid_predecessor (legacy_receive b) t = valid_receive_block_predecessor t
valid_predecessor (legacy_open b) t = false
valid_predecessor (legacy_change b) t = valid_change_block_predecessor t
valid_predecessor (state b) t = true

abbrev pub is_open : Block → Bool
is_open (legacy_send b) = false
is_open (legacy_receive b) = false
is_open (legacy_open b) = true
is_open (legacy_change b) = false
is_open (state b) = is_zero b.previous

abbrev pub source_or_link : Block → BlockHash
source_or_link b = unwrap_or (source_field b) (unwrap_or (link_field b) 0)

abbrev pub destination_or_link : Block → Account
destination_or_link b = unwrap_or (destination_field b) (unwrap_or (link_field b) 0)
