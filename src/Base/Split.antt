-- ===== src/Base/Split.antt =====
-- Taking two equal concatenations apart.
use mathlib.Core.Path.{◌≡◌, refl, ap}
use mathlib.Core.List.{List, ◌++◌}
use komms_cli.Base.Lists.{length, take, drop, take-append, drop-append}

module _ {ℓ} {A : Type ℓ} where
  -- Parts of equal length.
  pub append-injective :
      (xs ys us vs : List A) → length xs ≡ length us → xs ++ ys ≡ us ++ vs → (xs ≡ us) × (ys ≡ vs)
  append-injective xs ys us vs h e = (
    cc (
      ap (take (length us)) e,
      take-append (length us) xs ys h,
      take-append (length us) us vs refl,
    ),
    cc (
      ap (drop (length us)) e,
      drop-append (length us) xs ys h,
      drop-append (length us) us vs refl,
    ),
  )
