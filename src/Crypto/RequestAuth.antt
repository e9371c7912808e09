-- ===== src/Crypto/RequestAuth.antt =====
-- crypto/src/request_auth.rs: the HMAC input of a request, and its signature.
pub mod Verify
pub mod Laws
use komms_cli.Base.{ℕ, ◌≡◌, ◌≢◌, refl, List, [], ◌∷◌, ◌++◌, append_assoc, All}

abbrev pub newline : ℕ
newline = 10

unfoldable pub canonical_input : List ℕ → List ℕ → List ℕ → List ℕ → List ℕ → List ℕ
canonical_input caller ts_decimal method path body =
    caller
    ++ (newline ∷ (ts_decimal ++ (newline ∷ (method ++ (newline ∷ (path ++ (newline ∷ body)))))))

-- `hmac` is HMAC-SHA-256, `hex_string` the lower-case hex of `faster_hex`.
module _ (hmac : List ℕ → List ℕ → List ℕ) (hex_string : List ℕ → List ℕ) where
  unfoldable pub sign : List ℕ → List ℕ → List ℕ → List ℕ → List ℕ → List ℕ → List ℕ
  sign secret caller ts_decimal method path body =
      hex_string (hmac secret (canonical_input caller ts_decimal method path body))

abbrev pub IsLine : List ℕ → Type 0
IsLine = All (λ b. b ≢ newline)

line-injective :
    (xs ys us vs : List ℕ)
    → IsLine xs
    → IsLine us
    → xs ++ (newline ∷ ys) ≡ us ++ (newline ∷ vs)
    → (xs ≡ us) × (ys ≡ vs)
line-injective [] ys [] vs h k e = (refl, cc e)
line-injective [] ys (u ∷ us) vs h (ku, k) e = absurd (ku (cc e))
line-injective (x ∷ xs) ys [] vs (hx, h) k e = absurd (hx (cc e))
line-injective (x ∷ xs) ys (u ∷ us) vs (hx, h) (ku, k) e =
    let (p, q) = line-injective xs ys us vs h k (cc e) in (cc (e, p), q)

-- The HMAC input determines the request: two requests whose caller, timestamp, method and path hold no
-- newline have the same input only if all five parts agree, whatever the bodies hold.
pub canonical_input-injective :
    (caller ts method path body caller' ts' method' path' body' : List ℕ)
    → IsLine caller × IsLine ts × IsLine method × IsLine path
    → IsLine caller' × IsLine ts' × IsLine method' × IsLine path'
    → canonical_input caller ts method path body ≡ canonical_input caller' ts' method' path' body'
    → (caller ≡ caller') × (ts ≡ ts') × (method ≡ method') × (path ≡ path') × (body ≡ body')
unfolding canonical_input
canonical_input-injective c t m p b c' t' m' p' b' (h₁, h₂, h₃, h₄) (k₁, k₂, k₃, k₄) e =
    let (e₁, r₁) = line-injective c _ c' _ h₁ k₁ e in
    let (e₂, r₂) = line-injective t _ t' _ h₂ k₂ r₁ in
    let (e₃, r₃) = line-injective m _ m' _ h₃ k₃ r₂ in
    let (e₄, r₄) = line-injective p b p' b' h₄ k₄ r₃ in (e₁, e₂, e₃, e₄, r₄)

-- A newline inside the caller or the path makes the input ambiguous: moving what lies between two
-- newlines from one part to the next leaves the HMAC input, and so the signature, as it was.
pub canonical_input_ambiguous :
    (caller x ts method path body : List ℕ)
    → canonical_input (caller ++ (newline ∷ x)) ts method path body
      ≡ canonical_input caller x ts method (path ++ (newline ∷ body))
unfolding canonical_input
canonical_input_ambiguous caller x ts method path body = append_assoc caller (newline ∷ x) _
