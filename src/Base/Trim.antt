-- ===== src/Base/Trim.antt =====
-- `str::trim` of Rust's standard library on the UTF-8 bytes of a text, and equality of byte slices.
use Prim.Native.Nat.{ℕ, zero, suc, ◌-◌, ◌≤◌, ◌<◌}
use mathlib.Core.Path.{◌≡◌, refl}
use mathlib.Core.List.{List, [], ◌∷◌, reverse, reverse-reverse}
use mathlib.Core.Bool.{Bool, true, false, ◌&&◌, ◌||◌}
use native.Mathlib.Omega.{arith}
use komms_cli.Base.Tests.{if◌then◌else◌, leb, ◌==◌}
use komms_cli.Base.Lists.{All}
use komms_cli.Base.Bytes.{All-reverse}

-- The white space of Unicode, by the bytes of each character.
abbrev pub is_space1 : ℕ → Bool
is_space1 a = (leb 9 a && leb a 13) || a == 32

abbrev pub is_space2 : ℕ → ℕ → Bool
is_space2 a b = a == 0xC2 && (b == 0x85 || b == 0xA0)

abbrev pub is_space3 : ℕ → ℕ → ℕ → Bool
is_space3 a b c =
    (a == 0xE1 && b == 0x9A && c == 0x80)
    || (a == 0xE2
        && b == 0x80
        && ((leb 0x80 c && leb c 0x8A) || c == 0xA8 || c == 0xA9 || c == 0xAF))
    || (a == 0xE2 && b == 0x81 && c == 0x9F)
    || (a == 0xE3 && b == 0x80 && c == 0x80)

-- The length of the white-space character at the front, or 0.
unfoldable pub space_front : List ℕ → ℕ
space_front [] = 0
space_front (a ∷ []) = if is_space1 a then 1 else 0
space_front (a ∷ b ∷ []) = if is_space1 a then 1 else if is_space2 a b then 2 else 0
space_front (a ∷ b ∷ c ∷ bs) =
    if is_space1 a then 1 else if is_space2 a b then 2 else if is_space3 a b c then 3 else 0

-- The same at the front of the reversed bytes, where a character ends with its first byte.
unfoldable pub space_back : List ℕ → ℕ
space_back [] = 0
space_back (a ∷ []) = if is_space1 a then 1 else 0
space_back (b ∷ a ∷ []) = if is_space1 b then 1 else if is_space2 a b then 2 else 0
space_back (c ∷ b ∷ a ∷ bs) =
    if is_space1 c then 1 else if is_space2 b c then 2 else if is_space3 a b c then 3 else 0

-- Skips so many bytes, and then white space as long as there is some.
unfoldable pub skip_space : (List ℕ → ℕ) → ℕ → List ℕ → List ℕ
skip_space front n [] = []
skip_space front zero (b ∷ bs) =
    let n = front (b ∷ bs) in
    let rest = skip_space front (n - 1) bs in if n == 0 then b ∷ bs else rest
skip_space front (suc n) (b ∷ bs) = skip_space front n bs

unfoldable pub trim : List ℕ → List ℕ
unfolding skip_space space_front space_back
trim s = reverse (skip_space space_back 0 (reverse (skip_space space_front 0 s)))

-- A visible character of ASCII.
abbrev pub IsVisible : ℕ → Type 0
IsVisible b = (33 ≤ b) × (b < 128)

visible_front : (b : ℕ) (bs : List ℕ) → IsVisible b → space_front (b ∷ bs) ≡ 0
unfolding space_front
visible_front b [] h = ground arith
visible_front b (c ∷ []) h = ground arith
visible_front b (c ∷ d ∷ bs) h = ground arith

visible_back : (b : ℕ) (bs : List ℕ) → IsVisible b → space_back (b ∷ bs) ≡ 0
unfolding space_back
visible_back b [] h = ground arith
visible_back b (c ∷ []) h = ground arith
visible_back b (c ∷ d ∷ bs) h = ground arith

skip_front : (s : List ℕ) → All IsVisible s → skip_space space_front 0 s ≡ s
unfolding skip_space
skip_front [] h = refl
skip_front (b ∷ bs) (hb, h) = rw (visible_front b bs hb) refl

skip_back : (s : List ℕ) → All IsVisible s → skip_space space_back 0 s ≡ s
unfolding skip_space
skip_back [] h = refl
skip_back (b ∷ bs) (hb, h) = rw (visible_back b bs hb) refl

-- A text of visible ASCII characters has nothing to trim.
pub trim-IsVisible : (s : List ℕ) → All IsVisible s → trim s ≡ s
unfolding trim
trim-IsVisible s h =
    rw (skip_front s h, skip_back (reverse s) (All-reverse IsVisible s h)) (reverse-reverse s)

-- `==` on byte slices, and `ct_eq`.
unfoldable pub bytes_eq : List ℕ → List ℕ → Bool
bytes_eq [] [] = true
bytes_eq [] (b ∷ bs) = false
bytes_eq (a ∷ as') [] = false
bytes_eq (a ∷ as') (b ∷ bs) = a == b && bytes_eq as' bs

pub bytes_eq_refl : (a : List ℕ) → bytes_eq a a ≡ true
unfolding bytes_eq
bytes_eq_refl [] = refl
bytes_eq_refl (a ∷ as') = ground (arith, bytes_eq_refl as')

pub bytes_eq_sound : (a b : List ℕ) → bytes_eq a b ≡ true → a ≡ b
unfolding bytes_eq
bytes_eq_sound [] [] h = refl
bytes_eq_sound [] (b ∷ bs) h = cc
bytes_eq_sound (a ∷ as') [] h = cc
bytes_eq_sound (a ∷ as') (b ∷ bs) h = ground (arith, bytes_eq_sound as' bs)
