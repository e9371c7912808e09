-- ===== src/Cli/Hexutil.antt =====
-- src/hexutil.rs: hex arguments of the command line. A text is the list of its UTF-8 bytes.
use komms_cli.Base.{
  ℕ, ◌/◌, ◌%◌, ◌<◌, ◌≡◌, refl, List, [], ◌∷◌, ◌&&◌, Result, ok, err, ok_or, some, subst,
  if◌then◌else◌, ◌==◌, length, trim, trim-IsVisible, All, IsByte, arith,
}
use komms_cli.Hex.{FasterHex, IsHexDigit, IsHexDigit-IsVisible}

pub data HexError : Type 0 where
  wrong_length : ℕ → HexError
  odd_length invalid_hex : HexError

-- `s.strip_prefix("0x").unwrap_or(s)`
unfoldable pub strip_0x : List ℕ → List ℕ
strip_0x (a ∷ b ∷ s) = if a == b'0' && b == b'x' then s else a ∷ b ∷ s
strip_0x s = s

unfoldable pub bare : List ℕ → List ℕ
unfolding strip_0x
bare s = strip_0x (trim s)

module _ (H : FasterHex) where
  open H use {hex_decode, hex_string}

  unfoldable pub parse_hex32 : List ℕ → Result HexError (List ℕ)
  parse_hex32 s =
      if length (bare s) == 64
      then ok_or (hex_decode 32 (bare s)) invalid_hex
      else err (wrong_length (length (bare s)))

  unfoldable pub parse_hex_bytes : List ℕ → Result HexError (List ℕ)
  parse_hex_bytes s =
      if length (bare s) % 2 == 0
      then ok_or (hex_decode (length (bare s) / 2) (bare s)) invalid_hex
      else err odd_length

  unfoldable pub parse_hex64_sig : List ℕ → Result HexError (List ℕ)
  parse_hex64_sig s =
      if length (bare s) == 128
      then ok_or (hex_decode 64 (bare s)) invalid_hex
      else err (wrong_length (length (bare s)))

  unfoldable pub parse_hex32_pk : List ℕ → Result HexError (List ℕ)
  parse_hex32_pk s = parse_hex32 s

  pub length-parse_hex32 : (s b : List ℕ) → parse_hex32 s ≡ ok b → length b ≡ 32
  unfolding parse_hex32
  length-parse_hex32 s b e = H.length-hex_decode 32 (bare s) b (ground arith)

  pub length-parse_hex64_sig : (s b : List ℕ) → parse_hex64_sig s ≡ ok b → length b ≡ 64
  unfolding parse_hex64_sig
  length-parse_hex64_sig s b e = H.length-hex_decode 64 (bare s) b (ground arith)

  strip_digits : (s : List ℕ) → All IsHexDigit s → strip_0x s ≡ s
  unfolding strip_0x
  strip_digits [] h = refl
  strip_digits (a ∷ []) h = refl
  strip_digits (a ∷ b ∷ s) (ha, (hb, h)) = ground arith

  bare-hex_string : (b : List ℕ) → bare (hex_string b) ≡ hex_string b
  unfolding bare
  bare-hex_string b =
      rw (trim-IsVisible (hex_string b) (IsHexDigit-IsVisible _ (H.hex_string-IsHexDigit b)))
        (strip_digits (hex_string b) (H.hex_string-IsHexDigit b))

  bare-prefixed : (b : List ℕ) → bare (b'0' ∷ b'x' ∷ hex_string b) ≡ hex_string b
  unfolding bare strip_0x
  bare-prefixed b =
      rw
        (trim-IsVisible (b'0' ∷ b'x' ∷ hex_string b)
          (omega arith, (omega arith, IsHexDigit-IsVisible _ (H.hex_string-IsHexDigit b))))
        refl

  parse_bare :
      (s b : List ℕ)
      → bare s ≡ hex_string b
      → 0 < length b
      → All IsByte b
      → parse_hex_bytes s ≡ ok b
  unfolding parse_hex_bytes
  parse_bare s b e h hb =
      let even : length (hex_string b) % 2 ≡ 0 = omega (arith, H.length-hex_string b) in
      let half : length (hex_string b) / 2 ≡ length b = omega (arith, H.length-hex_string b) in
      rw (e, even, half, H.hex_decode-hex_string b h hb) refl

  pub trim-hex_string : (b : List ℕ) → trim (hex_string b) ≡ hex_string b
  trim-hex_string b =
      trim-IsVisible (hex_string b) (IsHexDigit-IsVisible _ (H.hex_string-IsHexDigit b))

  -- A hash that is printed is read back.
  pub parse_hex32-hex_string :
      (b : List ℕ) → length b ≡ 32 → All IsByte b → parse_hex32 (hex_string b) ≡ ok b
  unfolding parse_hex32
  parse_hex32-hex_string b h hb =
      let size : length (hex_string b) ≡ 64 = omega (arith, H.length-hex_string b, h) in
      let read : hex_decode 32 (hex_string b) ≡ some b =
        subst (λ n. hex_decode n (hex_string b) ≡ some b) h
          (H.hex_decode-hex_string b (omega (arith, h)) hb) in
      rw (bare-hex_string b, size, read) refl

  -- A hex argument that the tool prints is read back as the same bytes, with and without the prefix 0x, if
  -- there is a byte.
  pub parse_hex_bytes-hex_string :
      (b : List ℕ)
      → 0 < length b
      → All IsByte b
      → (parse_hex_bytes (hex_string b) ≡ ok b)
        × (parse_hex_bytes (b'0' ∷ b'x' ∷ hex_string b) ≡ ok b)
  parse_hex_bytes-hex_string b h hb =
      (parse_bare _ b (bare-hex_string b) h hb, parse_bare _ b (bare-prefixed b) h hb)
