-- ===== src/Examples/Hex.antt =====
-- A hex codec that stands in for faster_hex.
use komms_cli.Base.{
  ℕ, ◌+◌, ◌-◌, ◌*◌, ◌/◌, ◌%◌, ◌<◌, ◌≡◌, refl, List, [], ◌∷◌, ◌&&◌, Option, none, some,
  if◌then◌else◌, ltb, leb, ◌==◌, length, All, IsByte, arith,
}
use komms_cli.Hex.{FasterHex, IsHexDigit}

unfoldable pub digit : ℕ → ℕ
digit d = if ltb d 10 then 48 + d else 87 + d

unfoldable pub value : ℕ → Option ℕ
value c =
    if leb 48 c && leb c 57
    then some (c - 48)
    else if leb 97 c && leb c 102
    then some (c - 87)
    else none

unfoldable pub to_hex : List ℕ → List ℕ
to_hex [] = []
to_hex (b ∷ bs) = digit (b / 16 % 16) ∷ digit (b % 16) ∷ to_hex bs

-- One byte in front of what follows.
abbrev pub byte_of : Option ℕ → Option ℕ → Option (List ℕ) → Option (List ℕ)
byte_of (some x) (some y) (some bs) = some ((16 * x + y) ∷ bs)
byte_of _ _ _ = none

unfoldable pub of_hex : List ℕ → Option (List ℕ)
of_hex [] = some []
of_hex (x ∷ []) = none
of_hex (x ∷ y ∷ s) = byte_of (value x) (value y) (of_hex s)

abbrev pub sized : ℕ → Option (List ℕ) → Option (List ℕ)
sized n none = none
sized n (some b) = if length b == n then some b else none

value-digit : (d : ℕ) → d < 16 → value (digit d) ≡ some d
unfolding value digit
value-digit d h = ground arith

of_hex-to_hex : (bs : List ℕ) → All IsByte bs → of_hex (to_hex bs) ≡ some bs
unfolding of_hex to_hex
of_hex-to_hex [] h = refl
of_hex-to_hex (b ∷ bs) (hb, h) =
    let same : 16 * (b / 16 % 16) + b % 16 ≡ b = omega arith in
    rw
      (
        value-digit (b / 16 % 16) (omega arith),
        value-digit (b % 16) (omega arith),
        of_hex-to_hex bs h,
        same,
      )
      refl

pub to_hex-IsHexDigit : (bs : List ℕ) → All IsHexDigit (to_hex bs)
unfolding to_hex digit
to_hex-IsHexDigit [] = tt
to_hex-IsHexDigit (b ∷ bs) = (
  digit_lem (b / 16 % 16) (omega arith),
  (digit_lem (b % 16) (omega arith), to_hex-IsHexDigit bs),
)
  where
    digit_lem : (d : ℕ) → d < 16 → IsHexDigit (digit d)
    digit_lem d h = ground arith

pub length-to_hex : (bs : List ℕ) → length (to_hex bs) ≡ length bs + length bs
unfolding to_hex
length-to_hex [] = refl
length-to_hex (b ∷ bs) = omega (arith, length-to_hex bs)

pub sized_lem : (n : ℕ) (o : Option (List ℕ)) (b : List ℕ) → sized n o ≡ some b → length b ≡ n
sized_lem n none b e = cc
sized_lem n (some c) b e = ground arith

pub sized-of_hex : (b : List ℕ) → All IsByte b → sized (length b) (of_hex (to_hex b)) ≡ some b
sized-of_hex b h = rw (of_hex-to_hex b h) (ground arith)

abbrev pub hexer : FasterHex
hexer = record {
  hex_string = to_hex;
  hex_decode = λ n s. sized n (of_hex s);
  length-hex_string = length-to_hex;
  hex_string-IsHexDigit = to_hex-IsHexDigit;
  hex_decode-hex_string = λ b some_byte h. sized-of_hex b h;
  length-hex_decode = λ n s b e. sized_lem n (of_hex s) b e;
}
