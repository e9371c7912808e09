-- ===== src/Base/Int.antt =====
-- Integers, for the value of a CBOR integer and for Rust's `i64`.
use Prim.Native.Nat.{ℕ}

-- `negsuc n` is -(n + 1).
pub data ℤ : Type 0 where
  pos : ℕ → ℤ
  negsuc : ℕ → ℤ
