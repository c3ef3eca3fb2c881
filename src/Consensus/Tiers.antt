-- ===== src/Consensus/Tiers.antt =====
-- node/src/consensus/rep_tiers.rs: the tiers of the representatives by their weight. A `HashSet` is a
-- list of its members, and the weights are the entries of the cache, one for each representative.
use rsbanano_node.Prelude.{
  ◌/◌, ◌≡◌, refl, List, [], ◌∷◌, ltb, if◌then◌else◌, arith, none, some, Option,
}
use rsbanano_node.Prelude.Table.{Table, get, nat_eq, IsUnique}
use rsbanano_node.Core.Types.{PublicKey}
use rsbanano_node.Core.Amount.{Amount}
use rsbanano_node.Ledger.State.{contains}

pub data RepTier : Type 0 where
  none_tier tier_1 tier_2 tier_3 : RepTier

pub record Tiers : Type 0 where
  pub representatives_1 : List PublicKey
  pub representatives_2 : List PublicKey
  pub representatives_3 : List PublicKey

abbrev pub no_tiers : Tiers
no_tiers = record { representatives_1 = []; representatives_2 = []; representatives_3 = [] }

unfoldable pub tier : Tiers → PublicKey → RepTier
tier t representative =
    if contains representative t.representatives_3
    then tier_3
    else if contains representative t.representatives_2
    then tier_2
    else if contains representative t.representatives_1
    then tier_1
    else none_tier

-- One turn of the loop over the weights.
abbrev pub add_representative : Amount → PublicKey → Amount → Tiers → Tiers
add_representative trended representative weight t =
    if ltb (trended / 1000) weight
    then record {
      representatives_1 = representative ∷ t.representatives_1;
      representatives_2 =
          if ltb (trended / 100) weight
          then representative ∷ t.representatives_2
          else t.representatives_2;
      representatives_3 =
          if ltb (trended / 100) weight
          then if ltb (trended / 20) weight
            then representative ∷ t.representatives_3
            else t.representatives_3
          else t.representatives_3;
    }
    else t

unfoldable pub calculate_tiers : Amount → Table PublicKey Amount → Tiers
calculate_tiers trended [] = no_tiers
calculate_tiers trended ((representative, weight) ∷ rep_weights) =
    add_representative trended representative weight (calculate_tiers trended rep_weights)

-- The tier of a weight: above a thousandth, a hundredth or a twentieth of the weight online.
abbrev pub tier_of_weight : Amount → Amount → RepTier
tier_of_weight trended weight =
    if ltb (trended / 20) weight
    then tier_3
    else if ltb (trended / 100) weight
    then tier_2
    else if ltb (trended / 1000) weight
    then tier_1
    else none_tier

abbrev pub tier_of : Amount → Option Amount → RepTier
tier_of trended none = none_tier
tier_of trended (some weight) = tier_of_weight trended weight

-- The tier that is read for a representative is that of its weight, strictly above a
-- thousandth, a hundredth or a twentieth of the weight online, rounded down, and none without a
-- weight, where no representative stands twice in the weights.
pub tier-calculate_tiers :
    (trended : Amount) (rep_weights : Table PublicKey Amount) (representative : PublicKey)
    → IsUnique rep_weights
    → tier (calculate_tiers trended rep_weights) representative
      ≡ tier_of trended (get representative rep_weights)
unfolding tier calculate_tiers get
tier-calculate_tiers trended [] representative u = refl
tier-calculate_tiers trended ((r, w) ∷ rep_weights) representative u =
    ground (arith, tier-calculate_tiers trended rep_weights representative u.1)
