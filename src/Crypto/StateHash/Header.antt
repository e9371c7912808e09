-- ===== src/Crypto/StateHash/Header.antt =====
-- The hashed array is canonical CBOR.
use Prim.Native.Nat.{bit_or}
use komms_cli.Base.{
  ℕ, zero, suc, ◌+◌, ◌<◌, ◌≡◌, refl, ap, [], ◌∷◌, Bool, true, ◌&&◌, ◌==◌, arith, IsU64, to_be_bytes,
  to_le_bytes,
}
use komms_cli.Canonical.Grammar.{head, arg_code, arg_bytes}
use komms_cli.Crypto.StateHash.Defs.{encode_cbor_uint_header}

small_table : ℕ → Bool
small_table zero = true
small_table (suc n) = (bit_or 0x80 n == 128 + n) && small_table n

small_table_sound : (n x : ℕ) → small_table n ≡ true → x < n → bit_or 0x80 x ≡ 128 + x
unfolding small_table
small_table_sound zero x h lt = absurd (omega arith)
small_table_sound (suc n) x h lt = ground (arith, small_table_sound n x)

small : (x : ℕ) → x < 24 → bit_or 0x80 x ≡ 128 + x
unfolding small_table
small x h = small_table_sound 24 x refl h

one_byte : (n : ℕ) → n < 256 → to_be_bytes 1 n ≡ n ∷ []
unfolding to_be_bytes to_le_bytes
one_byte n h = ap (λ k. k ∷ []) (omega arith)

-- The state hash's array header is the canonical head of major type 4, the one that the payload walker
-- accepts, for every u64.
pub encode_cbor_uint_header-head : (n : ℕ) → IsU64 n → encode_cbor_uint_header 0x80 n ≡ head 4 n
unfolding encode_cbor_uint_header head arg_code arg_bytes
encode_cbor_uint_header-head n h = ground (arith, small n, one_byte n)
