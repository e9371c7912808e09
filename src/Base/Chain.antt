-- ===== src/Base/Chain.antt =====
-- What the result of a chain of fallible steps satisfies, step by step.
use komms_cli.Base.Outcome.{Result, ok, err, ◌>>=◌}
use mathlib.Core.Path.{◌≡◌, subst}

-- A result, if there is one, satisfies `P`.
abbrev pub Ensures {ℓ κ μ} : {E : Type ℓ} {A : Type κ} → (A → Type μ) → Result E A → Type μ
Ensures P (ok a) = P a
Ensures P (err e) = Unit

pub Ensures->>= {ℓ κ μ ν ξ} :
    {E : Type ℓ} {A : Type κ} {B : Type μ} (P : A → Type ν) (Q : B → Type ξ) (first : Result E A)
    (next : A → Result E B)
    → Ensures P first
    → ((a : A) → P a → Ensures Q (next a))
    → Ensures Q (first >>= next)
Ensures->>= P Q (ok a) next p q = q a p
Ensures->>= P Q (err e) next p q = tt

pub Ensures-any {ℓ κ} : {E : Type ℓ} {A : Type κ} (r : Result E A) → Ensures (λ a. Unit {0}) r
Ensures-any (ok a) = tt
Ensures-any (err e) = tt

pub Ensures-ok {ℓ κ μ} :
    {E : Type ℓ} {A : Type κ} (P : A → Type μ) (r : Result E A) {a : A}
    → r ≡ ok a
    → Ensures P r
    → P a
Ensures-ok P r e p = subst (Ensures P) e p

pub after_any {κ ν μ} :
    {E : Type ν} {A : Type 0} {B : Type κ} (Q : B → Type μ) (first : Result E A)
    (next : A → Result E B)
    → ((a : A) → Ensures Q (next a))
    → Ensures Q (first >>= next)
after_any Q first next k = Ensures->>= (λ a. Unit {0}) Q first next (Ensures-any first) (λ a u. k a)
