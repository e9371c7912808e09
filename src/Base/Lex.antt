-- ===== src/Base/Lex.antt =====
-- The lexicographic order of byte slices, which `cmp` decides.
use Prim.Native.Nat.{ℕ}
use mathlib.Core.Path.{◌≡◌, refl}
use mathlib.Core.Bool.{Bool, true, false}
use mathlib.Core.List.{List, [], ◌∷◌}
use native.Mathlib.Omega.{arith}
use komms_cli.Base.Tests.{ltb, ◌==◌, if◌then◌else◌}

-- `a.cmp(b) != Greater` on byte arrays: the lexicographic order.
unfoldable pub lex_le : List ℕ → List ℕ → Bool
lex_le [] bs = true
lex_le (a ∷ as') [] = false
lex_le (a ∷ as') (b ∷ bs) =
    let rest = lex_le as' bs in if ltb a b then true else if a == b then rest else false

pub lex_le_total : (a b : List ℕ) → lex_le a b ≡ false → lex_le b a ≡ true
unfolding lex_le
lex_le_total [] b h = cc
lex_le_total (x ∷ a) [] h = refl
lex_le_total (x ∷ a) (y ∷ b) h = ground (arith, lex_le_total a b)

pub lex_le_antisym : (a b : List ℕ) → lex_le a b ≡ true → lex_le b a ≡ true → a ≡ b
unfolding lex_le
lex_le_antisym [] [] h k = refl
lex_le_antisym [] (y ∷ b) h k = cc
lex_le_antisym (x ∷ a) [] h k = cc
lex_le_antisym (x ∷ a) (y ∷ b) h k = ground (arith, lex_le_antisym a b)

pub lex_le_trans : (a b c : List ℕ) → lex_le a b ≡ true → lex_le b c ≡ true → lex_le a c ≡ true
unfolding lex_le
lex_le_trans [] b c h k = refl
lex_le_trans (x ∷ a) [] c h k = cc
lex_le_trans (x ∷ a) (y ∷ b) [] h k = cc
lex_le_trans (x ∷ a) (y ∷ b) (z ∷ c) h k = ground (arith, lex_le_trans a b c)
