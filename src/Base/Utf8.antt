-- ===== src/Base/Utf8.antt =====
-- `str::from_utf8(..).is_ok()` and `str::is_ascii` of Rust's standard library, on lists of bytes.
use Prim.Native.Nat.{ℕ, ◌-◌}
use mathlib.Core.List.{List, [], ◌∷◌}
use mathlib.Core.Bool.{Bool, true, false, ◌&&◌}
use komms_cli.Base.Tests.{if◌then◌else◌, ltb, leb, ◌==◌}

-- Between two bytes of a text: a new character may start, or so many continuation bytes are due,
-- the next of them in a range. `rejected` is final.
pub data Utf8State : Type 0 where
  start rejected : Utf8State
  due : ℕ → ℕ → ℕ → Utf8State

unfoldable pub lead : ℕ → Utf8State
lead b =
    if ltb b 0x80
    then start
    else if ltb b 0xC2
    then rejected
    else if ltb b 0xE0
    then due 0x80 0xBF 0
    else if b == 0xE0
    then due 0xA0 0xBF 1
    else if b == 0xED
    then due 0x80 0x9F 1
    else if ltb b 0xF0
    then due 0x80 0xBF 1
    else if b == 0xF0
    then due 0x90 0xBF 2
    else if ltb b 0xF4
    then due 0x80 0xBF 2
    else if b == 0xF4
    then due 0x80 0x8F 2
    else rejected

unfoldable pub utf8_step : Utf8State → ℕ → Utf8State
unfolding lead
utf8_step start b = lead b
utf8_step rejected b = rejected
utf8_step (due lo hi more) b =
    if leb lo b && leb b hi
    then (if more == 0 then start else due 0x80 0xBF (more - 1))
    else rejected

unfoldable pub utf8_run : Utf8State → List ℕ → Utf8State
unfolding utf8_step
utf8_run s [] = s
utf8_run s (b ∷ bs) = utf8_run (utf8_step s b) bs

unfoldable pub is_utf8 : List ℕ → Bool
unfolding utf8_run
is_utf8 bs = elim (utf8_run start bs) [ start ↦ true | _ ↦ false ]

abbrev pub is_ascii : List ℕ → Bool
is_ascii [] = true
is_ascii (b ∷ bs) = ltb b 0x80 && is_ascii bs
