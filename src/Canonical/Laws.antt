-- ===== src/Canonical/Laws.antt =====
-- The walker against the grammar, and what it says about more bytes behind an item.
use komms_cli.Base.{ℕ, ◌+◌, List, ◌∷◌, ◌++◌, ok, err, ◌≡◌, ◌↔◌, ap, ◌∙◌, length, All, IsByte, arith}
use komms_cli.Canonical.Walk.{validate_canonical, finish, trailing_bytes}
use komms_cli.Canonical.Grammar.{IsCanonical}
use komms_cli.Canonical.Complete.{at, walk_item-IsCanonical, validate_canonical-IsCanonical}
use komms_cli.Canonical.Sound.{IsCanonical-validate_canonical}

-- On bytes, the walker accepts exactly the canonical items nested at most nine levels deep, the outermost
-- included.
pub validate_canonical_correct :
    (cbor : List ℕ) → All IsByte cbor → (validate_canonical cbor ≡ ok tt) ↔ IsCanonical 9 cbor
validate_canonical_correct cbor hb =
    (IsCanonical-validate_canonical cbor hb, validate_canonical-IsCanonical cbor)

finish-trailing : (p y : ℕ) (ys : List ℕ) → finish (at p (y ∷ ys)) ≡ err (trailing_bytes p)
unfolding finish
finish-trailing p y ys = ground arith

-- One byte or more behind an accepted item is refused, and the error has the offset of the first of them: no
-- accepted payload is the start of another.
pub validate_canonical-append :
    (xs : List ℕ) (y : ℕ) (ys : List ℕ)
    → All IsByte xs
    → validate_canonical xs ≡ ok tt
    → validate_canonical (xs ++ (y ∷ ys)) ≡ err (trailing_bytes (length xs))
unfolding validate_canonical
validate_canonical-append xs y ys hb e =
    let h = IsCanonical-validate_canonical xs hb e in
    rw (walk_item-IsCanonical 9 xs 0 (y ∷ ys) h)
      (finish-trailing (0 + length xs) y ys ∙ ap (λ n. err (trailing_bytes n)) (omega arith))
