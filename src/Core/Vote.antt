-- ===== src/Core/Vote.antt =====
-- core/src/vote.rs: votes, and the time and the duration that share one word. The masks of the code
-- keep or clear the four low bits. `none` is a failed assertion.
use rsbanano_node.Prelude.{
  ℕ, Bool, true, false, ◌+◌, ◌-◌, ◌%◌, ◌^◌, ◌≤◌, ◌<◌, ◌≡◌, ◌≢◌, refl, Option, none, some, List, leb,
  ◌==◌, if◌then◌else◌, arith,
}
use rsbanano_node.Prelude.Bits.{bit_or_nibble}
use Prim.Native.Nat.{bit_or}
use rsbanano_node.Prelude.Lists.{length}
use rsbanano_node.Prelude.Word.{u64_mod}
use rsbanano_node.Core.Types.{PublicKey, Signature, BlockHash}

pub data VoteSource : Type 0 where
  live rebroadcast cache : VoteSource

pub data VoteCode : Type 0 where
  invalid replay vote indeterminate ignored : VoteCode

pub record Vote : Type 0 where
  pub timestamp : ℕ
  pub voting_account : PublicKey
  pub signature : Signature
  pub hashes : List BlockHash

abbrev pub final_timestamp : ℕ
final_timestamp = u64_mod - 1

abbrev pub duration_max : ℕ
duration_max = 15

abbrev pub timestamp_max : ℕ
timestamp_max = 18446744073709551600

-- `timestamp & TIMESTAMP_MASK`.
abbrev pub masked : ℕ → ℕ
masked timestamp = timestamp - timestamp % 16

unfoldable pub packed_timestamp : ℕ → ℕ → ℕ
packed_timestamp timestamp duration = bit_or (masked timestamp) duration

unfoldable pub is_final : Vote → Bool
is_final v = v.timestamp == final_timestamp

unfoldable pub vote_timestamp : Vote → ℕ
vote_timestamp v = if is_final v then v.timestamp else masked v.timestamp

unfoldable pub duration_bits : Vote → ℕ
duration_bits v = v.timestamp % 16

-- In milliseconds.
unfoldable pub duration : Vote → ℕ
duration v = 2 ^ (duration_bits v + 4)

abbrev pub max_hashes : ℕ
max_hashes = 255

abbrev pub signed_vote : (ℕ → List BlockHash → Signature) → PublicKey → ℕ → List BlockHash → Vote
signed_vote sign public_key packed hashes = record {
  timestamp = packed;
  voting_account = public_key;
  signature = sign packed hashes;
  hashes = hashes;
}

-- `Vote::new`, with the signature that the key makes.
unfoldable pub new_vote :
    (ℕ → List BlockHash → Signature) → PublicKey → ℕ → ℕ → List BlockHash → Option Vote
new_vote sign public_key timestamp duration hashes =
    if leb (length hashes) max_hashes
    then some (signed_vote sign public_key (packed_timestamp timestamp duration) hashes)
    else none

unfoldable pub new_final :
    (ℕ → List BlockHash → Signature) → PublicKey → List BlockHash → Option Vote
new_final sign public_key hashes =
    if leb (length hashes) max_hashes
    then new_vote sign public_key timestamp_max duration_max hashes
    else none

-- A vote that shows a timestamp and a duration, final or not.
abbrev pub Shows : Option Vote → Bool → ℕ → ℕ → Type 0
Shows made final time bits =
    (v : Vote) × (made ≡ some v)
    × (is_final v ≡ final)
    × (vote_timestamp v ≡ time)
    × (duration_bits v ≡ bits)

-- With at most 255 hashes, a final vote is made, is final and shows the highest timestamp of
-- all; a vote of another time, below 2^64, with a duration of at most 15, is made, is not
-- final, and shows its time, without the four low bits, and its duration.
pub new_vote-timestamp :
    (sign : ℕ → List BlockHash → Signature) (public_key : PublicKey) (time bits : ℕ)
    (hashes : List BlockHash)
    → length hashes ≤ max_hashes
    → time < u64_mod
    → masked time ≢ timestamp_max
    → bits ≤ duration_max
    → Shows (new_final sign public_key hashes) true final_timestamp duration_max
      × Shows (new_vote sign public_key time bits hashes) false (masked time) bits
unfolding is_final vote_timestamp duration_bits new_vote new_final packed_timestamp
new_vote-timestamp sign public_key time bits hashes few h other k =
    let fits : leb (length hashes) max_hashes ≡ true = ground (arith, few) in
    let final = bit_or_nibble timestamp_max duration_max refl (omega arith) in
    let packed = bit_or_nibble (masked time) bits (omega arith) (omega (arith, k)) in
    (
      (
        signed_vote sign public_key (packed_timestamp timestamp_max duration_max) hashes,
        rw fits refl,
        ground (arith, final),
        ground (arith, final),
        ground (arith, final),
      ),
      (
        signed_vote sign public_key (packed_timestamp time bits) hashes,
        rw fits refl,
        ground (arith, packed),
        ground (arith, packed),
        ground (arith, packed),
      ),
    )
