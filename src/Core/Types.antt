-- ===== src/Core/Types.antt =====
-- The 256-bit identifiers of core/src (account.rs, block_hash.rs, public_key.rs and the `u256_struct`
-- types of lib.rs), read as numbers: the conversions between them copy the bytes, so they are the
-- identity here, and `is_zero` is a comparison with 0. A signature is compared and handed on only.
use rsbanano_node.Prelude.{ℕ, Bool, ◌==◌}

abbrev pub Account : Type 0
Account = ℕ

abbrev pub BlockHash : Type 0
BlockHash = ℕ

abbrev pub PublicKey : Type 0
PublicKey = ℕ

abbrev pub Link : Type 0
Link = ℕ

abbrev pub Root : Type 0
Root = ℕ

abbrev pub Signature : Type 0
Signature = ℕ

abbrev pub is_zero : ℕ → Bool
is_zero n = n == 0

-- `PublicKey::verify` (Ed25519, a third-party library): key, message, signature.
abbrev pub Verify : Type 0
Verify = PublicKey → BlockHash → Signature → Bool
