-- ===== src/Core/Details.antt =====
-- core/src/blocks/block_details.rs: the flags of a saved block and their byte.
use Prim.Native.Nat.{bit_and, bit_or}
use rsbanano_node.Prelude.{
  ℕ, ◌<◌, ◌≡◌, refl, Bool, true, false, not, Option, none, some, arith, ◌==◌, if◌then◌else◌,
}
use rsbanano_node.Core.Epoch.{Epoch, epoch_value, epoch_from_u8}
use rsbanano_node.Core.BlockType.{BlockSubType}

pub record BlockDetails : Type 0 where
  pub epoch : Epoch
  pub is_send : Bool
  pub is_receive : Bool
  pub is_epoch : Bool

-- `if self.is_send { result |= 0b1000_0000; }` and so on.
abbrev flag : Bool → ℕ → ℕ → ℕ
flag set bit result = if set then bit_or result bit else result

pub packed : BlockDetails → ℕ
packed d = flag d.is_epoch 0x20 (flag d.is_receive 0x40 (flag d.is_send 0x80 (epoch_value d.epoch)))

abbrev has_flag : ℕ → ℕ → Bool
has_flag bit value = not (bit_and bit value == 0)

pub unpack : ℕ → Option BlockDetails
unpack value = elim (epoch_from_u8 (bit_and value 0x1f)) [
  | none ↦ none
  | some e ↦ some (record {
    epoch = e;
    is_send = has_flag 0x80 value;
    is_receive = has_flag 0x40 value;
    is_epoch = has_flag 0x20 value;
  })
]

pub subtype : BlockDetails → BlockSubType
subtype d =
    if d.is_send
    then BlockSubType.send
    else if d.is_receive
    then BlockSubType.receive
    else if d.is_epoch
    then BlockSubType.epoch
    else BlockSubType.change

abbrev RoundTrips : Epoch → Bool → Bool → Bool → Type 0
RoundTrips e s r p =
    let d : BlockDetails = record { epoch = e; is_send = s; is_receive = r; is_epoch = p } in
    (unpack (packed d) ≡ some d) × (packed d < 256)

round_trips : (s r p : Bool) (e : Epoch) → RoundTrips e s r p
unfolding packed unpack
round_trips true true true Epoch.invalid = (refl, omega arith)
round_trips true true true _ = (refl, omega arith)
round_trips true true false Epoch.invalid = (refl, omega arith)
round_trips true true false _ = (refl, omega arith)
round_trips true false true Epoch.invalid = (refl, omega arith)
round_trips true false true _ = (refl, omega arith)
round_trips true false false Epoch.invalid = (refl, omega arith)
round_trips true false false _ = (refl, omega arith)
round_trips false true true Epoch.invalid = (refl, omega arith)
round_trips false true true _ = (refl, omega arith)
round_trips false true false Epoch.invalid = (refl, omega arith)
round_trips false true false _ = (refl, omega arith)
round_trips false false true Epoch.invalid = (refl, omega arith)
round_trips false false true _ = (refl, omega arith)
round_trips false false false Epoch.invalid = (refl, omega arith)
round_trips false false false _ = (refl, omega arith)

-- The details of a block come back from their byte, which is a byte.
pub unpack-packed : (d : BlockDetails) → (unpack (packed d) ≡ some d) × (packed d < 256)
unpack-packed d = round_trips d.is_send d.is_receive d.is_epoch d.epoch
