-- ===== src/Hex.antt =====
-- The `faster_hex` crate as the code uses it: lower-case hex, and decoding into a buffer of a given length.
use komms_cli.Base.{
  ℕ, ◌+◌, ◌<◌, List, Bool, true, ◌&&◌, ◌||◌, Option, some, ◌≡◌, leb, length, All, IsByte, IsVisible,
  arith,
}

abbrev pub is_hex_digit : ℕ → Bool
is_hex_digit b = (leb 48 b && leb b 57) || (leb 97 b && leb b 102)

abbrev pub IsHexDigit : ℕ → Type 0
IsHexDigit b = is_hex_digit b ≡ true

pub record FasterHex : Type 0 where
  pub hex_string : List ℕ → List ℕ
  -- the length of the buffer, and the text
  pub hex_decode : ℕ → List ℕ → Option (List ℕ)
  pub length-hex_string : (b : List ℕ) → length (hex_string b) ≡ length b + length b
  pub hex_string-IsHexDigit : (b : List ℕ) → All IsHexDigit (hex_string b)
  pub hex_decode-hex_string :
      (b : List ℕ) → 0 < length b → All IsByte b → hex_decode (length b) (hex_string b) ≡ some b
  pub length-hex_decode : (n : ℕ) (s b : List ℕ) → hex_decode n s ≡ some b → length b ≡ n

pub IsHexDigit-IsVisible : (s : List ℕ) → All IsHexDigit s → All IsVisible s
IsHexDigit-IsVisible List.[] h = tt
IsHexDigit-IsVisible (List.◌∷◌ b bs) (hb, h) = (ground arith, IsHexDigit-IsVisible bs h)
