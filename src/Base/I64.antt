-- ===== src/Base/I64.antt =====
-- Rust's `i64`: reading it from a decimal text, wrapping subtraction, and `unsigned_abs`.
use Prim.Native.Nat.{ℕ, zero, suc, ◌+◌, ◌-◌, ◌*◌, ◌%◌, ◌^◌, ◌≤◌, ◌<◌}
use mathlib.Core.Path.{◌≡◌, refl, subst}
use mathlib.Core.Logic.{inl, inr}
use mathlib.Core.List.{List, [], ◌∷◌}
use mathlib.Core.Bool.{◌&&◌}
use mathlib.Core.Option.{Option, none, some}
use mathlib.Core.Option
use native.Mathlib.Omega.{arith}
use komms_cli.Base.Tests.{if◌then◌else◌, ltb, leb, ◌==◌, Bool-cases}
use komms_cli.Base.Int.{ℤ, pos, negsuc}

abbrev pub i64_max : ℕ
i64_max = 2 ^ 63 - 1

-- The digits of a number that may be at most `bound`; none is an error, and so is a larger number.
unfoldable pub digits : ℕ → ℕ → List ℕ → Option ℕ
digits bound acc [] = some acc
digits bound acc (c ∷ cs) =
    let acc' = acc * 10 + (c - 48) in
    let rest = digits bound acc' cs in
    if leb 48 c && leb c 57 then (if leb acc' bound then rest else none) else none

unfoldable pub unsigned_digits : ℕ → List ℕ → Option ℕ
unfolding digits
unsigned_digits bound [] = none
unsigned_digits bound (c ∷ cs) = digits bound 0 (c ∷ cs)

abbrev pub negate : ℕ → ℤ
negate zero = pos 0
negate (suc n) = negsuc n

-- `str::parse::<i64>`
unfoldable pub parse_i64 : List ℕ → Option ℤ
unfolding unsigned_digits
parse_i64 [] = none
parse_i64 (c ∷ cs) =
    if c == b'-'
    then (Option.map negate (unsigned_digits (2 ^ 63) cs))
    else if c == b'+'
    then (Option.map pos (unsigned_digits i64_max cs))
    else (Option.map pos (unsigned_digits i64_max (c ∷ cs)))

-- The bits of an i64, as a u64, and back.
abbrev pub to_bits : ℤ → ℕ
to_bits (pos n) = n % 2 ^ 64
to_bits (negsuc n) = (2 ^ 64 - 1) - n % 2 ^ 64

abbrev pub of_bits : ℕ → ℤ
of_bits n = if ltb n (2 ^ 63) then pos n else negsuc ((2 ^ 64 - 1) - n)

-- `a - b` without an overflow check.
unfoldable pub wrapping_sub : ℤ → ℤ → ℤ
wrapping_sub a b = of_bits ((to_bits a + 2 ^ 64 - to_bits b) % 2 ^ 64)

unfoldable pub unsigned_abs : ℤ → ℕ
unsigned_abs (pos n) = n
unsigned_abs (negsuc n) = suc n

-- The values of the type.
abbrev pub IsI64 : ℤ → Type 0
IsI64 (pos n) = n < 2 ^ 63
IsI64 (negsuc n) = n < 2 ^ 63

-- `n` is at most `d` away from `z`.
abbrev pub Near : ℕ → ℕ → ℤ → Type 0
Near d n (pos m) = (n ≤ m + d) × (m ≤ n + d)
Near d n (negsuc m) = n + suc m ≤ d

digits-le :
    (bound acc : ℕ) (s : List ℕ) (n : ℕ) → acc ≤ bound → digits bound acc s ≡ some n → n ≤ bound
unfolding digits
digits-le bound acc [] n h e = ground arith
digits-le bound acc (c ∷ cs) n h e = ground (arith, digits-le bound (acc * 10 + (c - 48)) cs n)

unsigned_digits-le : (bound : ℕ) (s : List ℕ) (n : ℕ) → unsigned_digits bound s ≡ some n → n ≤ bound
unfolding unsigned_digits
unsigned_digits-le bound [] n e = cc
unsigned_digits-le bound (c ∷ cs) n e = digits-le bound 0 (c ∷ cs) n (omega arith) e

signed-IsI64 :
    (bound : ℕ) (sign : ℕ → ℤ) (s : List ℕ) (z : ℤ)
    → ((n : ℕ) → n ≤ bound → IsI64 (sign n))
    → Option.map sign (unsigned_digits bound s) ≡ some z
    → IsI64 z
signed-IsI64 bound sign s z fits e = go (unsigned_digits bound s) refl e
  where
    go : (o : Option ℕ) → unsigned_digits bound s ≡ o → Option.map sign o ≡ some z → IsI64 z
    go none q e = cc
    go (some n) q e =
        let same : sign n ≡ z = cc e in subst IsI64 same (fits n (unsigned_digits-le bound s n q))

negate-IsI64 : (n : ℕ) → n ≤ 2 ^ 63 → IsI64 (negate n)
negate-IsI64 zero h = omega arith
negate-IsI64 (suc n) h = omega arith

-- What is read is an i64.
pub parse_i64-IsI64 : (s : List ℕ) (z : ℤ) → parse_i64 s ≡ some z → IsI64 z
unfolding parse_i64
parse_i64-IsI64 [] z e = cc
parse_i64-IsI64 (c ∷ cs) z e = elim (Bool-cases (c == b'-')) [
  | inl m ↦ signed-IsI64 (2 ^ 63) negate cs z negate-IsI64 (rw m at e)
  | inr m ↦ elim (Bool-cases (c == b'+')) [
    | inl p ↦ signed-IsI64 i64_max (λ n. pos n) cs z (λ n h. omega arith) (rw (m, p) at e)
    | inr p ↦ signed-IsI64 i64_max (λ n. pos n) (c ∷ cs) z (λ n h. omega arith) (rw (m, p) at e)
  ]
]

-- The wrapped distance from a clock is the true one, as long as the clock and the allowed distance
-- together stay below 2^63.
pub wrapping_sub-Near :
    (now skew : ℕ) (t : ℤ)
    → IsI64 t
    → now + skew < 2 ^ 63
    → unsigned_abs (wrapping_sub (pos now) t) ≤ skew
    → Near skew now t
unfolding wrapping_sub unsigned_abs
wrapping_sub-Near now skew (pos m) ht h e = ground arith
wrapping_sub-Near now skew (negsuc m) ht h e = ground arith

pub Near-wrapping_sub :
    (now skew : ℕ) (t : ℤ)
    → IsI64 t
    → now + skew < 2 ^ 63
    → Near skew now t
    → unsigned_abs (wrapping_sub (pos now) t) ≤ skew
unfolding wrapping_sub unsigned_abs
Near-wrapping_sub now skew (pos m) ht h e = ground arith
Near-wrapping_sub now skew (negsuc m) ht h e = ground arith
