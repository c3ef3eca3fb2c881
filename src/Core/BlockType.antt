-- ===== src/Core/BlockType.antt =====
-- core/src/blocks/mod.rs: block types and subtypes, and which block may follow which.
use rsbanano_node.Prelude.{Bool, true, false}

pub data BlockType : Type 0 where
  invalid not_a_block legacy_send legacy_receive legacy_open legacy_change state : BlockType

pub data BlockSubType : Type 0 where
  send receive open_account change epoch : BlockSubType

unfoldable pub valid_send_block_predecessor : BlockType → Bool
valid_send_block_predecessor BlockType.legacy_send = true
valid_send_block_predecessor BlockType.legacy_receive = true
valid_send_block_predecessor BlockType.legacy_open = true
valid_send_block_predecessor BlockType.legacy_change = true
valid_send_block_predecessor BlockType.not_a_block = false
valid_send_block_predecessor BlockType.state = false
valid_send_block_predecessor BlockType.invalid = false

unfoldable pub valid_receive_block_predecessor : BlockType → Bool
valid_receive_block_predecessor BlockType.legacy_send = true
valid_receive_block_predecessor BlockType.legacy_receive = true
valid_receive_block_predecessor BlockType.legacy_open = true
valid_receive_block_predecessor BlockType.legacy_change = true
valid_receive_block_predecessor _ = false

unfoldable pub valid_change_block_predecessor : BlockType → Bool
valid_change_block_predecessor BlockType.legacy_send = true
valid_change_block_predecessor BlockType.legacy_receive = true
valid_change_block_predecessor BlockType.legacy_open = true
valid_change_block_predecessor BlockType.legacy_change = true
valid_change_block_predecessor _ = false
