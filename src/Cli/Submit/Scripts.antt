-- ===== src/Cli/Submit/Scripts.antt =====
-- src/submit.rs: lists of inputs, and the scripts in them.
use komms_cli.Base.{
  ℕ, zero, suc, ◌+◌, ◌<◌, ◌≡◌, refl, ap, List, [], ◌∷◌, some, length, map, All, arith, subst,
}
use komms_cli.Cli.Submit.Transaction.{TransactionInput, get_elem?, set_script}

-- Every element satisfies `P` with its place, counted from `i`.
abbrev pub AllFrom : {A : Type 0} → (ℕ → A → Type 0) → ℕ → List A → Type 0
AllFrom P i [] = Unit
AllFrom P i (x ∷ xs) = P i x × AllFrom P (suc i) xs

pub AllFrom-get_elem :
    {A : Type 0} (P : ℕ → A → Type 0) (i : ℕ) (xs : List A)
    → ((j : ℕ) (x : A) → get_elem? xs j ≡ some x → P (i + j) x)
    → AllFrom P i xs
AllFrom-get_elem P i [] h = tt
AllFrom-get_elem P i (x ∷ xs) h = (
  subst (λ n. P n x) (omega arith) (h zero x refl),
  AllFrom-get_elem P (suc i) xs
      (λ j y e. subst (λ n. P n y) {x = i + suc j} {y = suc i + j} (omega arith) (h (suc j) y e)),
)

pub All-AllFrom :
    {A : Type 0} {P : ℕ → A → Type 0} {Q : A → Type 0}
    → ((i : ℕ) (x : A) → P i x → Q x)
    → (i : ℕ) (xs : List A) → AllFrom P i xs
    → All Q xs
All-AllFrom f i [] a = tt
All-AllFrom f i (x ∷ xs) (p, a) = (f i x p, All-AllFrom f (suc i) xs a)

pub get_elem_lt :
    {A : Type 0} (xs : List A) (j : ℕ) (x : A) → get_elem? xs j ≡ some x → j < length xs
get_elem_lt [] j x e = cc e
get_elem_lt (y ∷ xs) zero x e = omega arith
get_elem_lt (y ∷ xs) (suc j) x e = omega (arith, get_elem_lt xs j x e)

module _ {Outpoint : Type 0} where
  abbrev pub outpoints : List (TransactionInput Outpoint) → List Outpoint
  outpoints xs = map (λ x. x.previous_outpoint) xs

  abbrev pub cleared : TransactionInput Outpoint → TransactionInput Outpoint
  cleared x = record x { signature_script = [] }

  pub outpoints-cleared :
      (xs : List (TransactionInput Outpoint)) → outpoints (map cleared xs) ≡ outpoints xs
  outpoints-cleared [] = refl
  outpoints-cleared (x ∷ xs) = ap (λ t. x.previous_outpoint ∷ t) (outpoints-cleared xs)

  pub length-cleared : (xs : List (TransactionInput Outpoint)) → length (map cleared xs) ≡ length xs
  length-cleared [] = refl
  length-cleared (x ∷ xs) = ap suc (length-cleared xs)

  pub cleared-set_script :
      (i : ℕ) (s : List ℕ) (xs : List (TransactionInput Outpoint))
      → map cleared (set_script i s xs) ≡ map cleared xs
  unfolding set_script
  cleared-set_script i s [] = refl
  cleared-set_script zero s (x ∷ xs) = refl
  cleared-set_script (suc i) s (x ∷ xs) = ap (λ t. cleared x ∷ t) (cleared-set_script i s xs)

  pub set_script_here :
      (i : ℕ) (s : List ℕ) (xs : List (TransactionInput Outpoint)) (x : TransactionInput Outpoint)
      → get_elem? (set_script i s xs) i ≡ some x
      → s ≡ x.signature_script
  unfolding set_script
  set_script_here i s [] x e = cc e
  set_script_here zero s (y ∷ xs) x e =
      ap (λ (t : TransactionInput Outpoint). t.signature_script) (some_injective e)
    where
      some_injective : {a b : TransactionInput Outpoint} → some a ≡ some b → a ≡ b
      some_injective h = cc h
  set_script_here (suc i) s (y ∷ xs) x e = set_script_here i s xs x e

  pub set_script_elsewhere :
      (i j : ℕ) (s : List ℕ) (xs : List (TransactionInput Outpoint))
      → j < i
      → get_elem? (set_script i s xs) j ≡ get_elem? xs j
  unfolding set_script
  set_script_elsewhere i j s [] h = refl
  set_script_elsewhere zero j s (x ∷ xs) h = absurd (omega arith)
  set_script_elsewhere (suc i) zero s (x ∷ xs) h = refl
  set_script_elsewhere (suc i) (suc j) s (x ∷ xs) h = set_script_elsewhere i j s xs (omega arith)
