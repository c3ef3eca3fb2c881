-- ===== src/Core/Epoch.antt =====
-- core/src/epoch.rs: the epochs and the table of their links and signers.
use rsbanano_node.Prelude.{
  ℕ, ◌+◌, ◌≡◌, ◌↔◌, refl, Bool, true, false, ◌&&◌, Option, none, some, [], ◌∷◌, arith, leb, ◌==◌,
  if◌then◌else◌, is_some,
}
use rsbanano_node.Prelude.Table.{Eq, Table, get, put}
use rsbanano_node.Core.Types.{Account, PublicKey, Link}

pub data Epoch : Type 0 where
  invalid unspecified epoch0 epoch1 epoch2 : Epoch

-- The discriminant, by which the derived order compares.
abbrev pub epoch_value : Epoch → ℕ
epoch_value Epoch.invalid = 0
epoch_value Epoch.unspecified = 1
epoch_value Epoch.epoch0 = 2
epoch_value Epoch.epoch1 = 3
epoch_value Epoch.epoch2 = 4

abbrev pub epoch_from_u8 : ℕ → Option Epoch
epoch_from_u8 n =
    if n == 0
    then some Epoch.invalid
    else if n == 1
    then some Epoch.unspecified
    else if n == 2
    then some Epoch.epoch0
    else if n == 3
    then some Epoch.epoch1
    else if n == 4
    then some Epoch.epoch2
    else none

abbrev pub epoch_eq : Epoch → Epoch → Bool
epoch_eq a b = epoch_value a == epoch_value b

pub epoch_eq_iff : (a b : Epoch) → (epoch_eq a b ≡ true) ↔ (a ≡ b)
epoch_eq_iff a b = (λ h. ground arith, λ h. ground arith)

instance abbrev pub epoch_keys : Eq Epoch
epoch_keys = record { beq = epoch_eq; beq_iff = epoch_eq_iff }

-- `std::cmp::max`, which takes its second argument where both are equal.
abbrev pub max_epoch : Epoch → Epoch → Epoch
max_epoch a b = if leb (epoch_value a) (epoch_value b) then b else a

unfoldable pub epoch_number : Epoch → ℕ
epoch_number Epoch.epoch1 = 1
epoch_number Epoch.epoch2 = 2
epoch_number _ = 0

pub record EpochInfo : Type 0 where
  pub signer : PublicKey
  pub link : Link

-- The hash map, in the order in which it iterates.
abbrev pub Epochs : Type 0
Epochs = Table Epoch EpochInfo

unfoldable pub add_epoch : Epochs → Epoch → PublicKey → Link → Epochs
add_epoch es e signer link = put e (record { signer = signer; link = link }) es

unfoldable pub is_epoch_link : Epochs → Link → Bool
is_epoch_link [] link = false
is_epoch_link ((e, info) ∷ es) link = if info.link == link then true else is_epoch_link es link

unfoldable pub epoch_of : Epochs → Link → Option Epoch
epoch_of [] link = none
epoch_of ((e, info) ∷ es) link = if info.link == link then some e else epoch_of es link

unfoldable pub epoch_signer : Epochs → Link → Option Account
epoch_signer es link = elim (epoch_of es link) [
  | none ↦ none
  | some e ↦ elim (get e es) [ none ↦ none | some info ↦ some info.signer ]
]

-- The new epoch is one version above the old one.
unfoldable pub is_sequential : Epoch → Epoch → Bool
is_sequential epoch new_epoch =
    leb (epoch_value Epoch.epoch0) (epoch_value epoch)
    && epoch_value new_epoch == epoch_value epoch + 1

-- A link is an epoch link exactly if it has an epoch.
pub is_epoch_link-epoch_of :
    (es : Epochs) (link : Link) → is_epoch_link es link ≡ is_some (epoch_of es link)
unfolding is_epoch_link epoch_of
is_epoch_link-epoch_of [] link = refl
is_epoch_link-epoch_of ((e, info) ∷ es) link = ground (arith, is_epoch_link-epoch_of es link)
