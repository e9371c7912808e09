-- ===== src/Crypto/Sealed.antt =====
-- crypto/src/sealed.rs: the wire form of a sealed field, nonce || ciphertext || tag.
use komms_cli.Base.{
  ℕ, zero, suc, ◌+◌, ◌-◌, ◌<◌, ◌≤◌, ◌≡◌, ◌↔◌, refl, sym, ap, ◌∙◌, List, [], ◌∷◌, ◌++◌, append_assoc,
  Result, ok, err, if◌then◌else◌, ltb, length, length-append, take, drop, take-append, drop-append,
  take-append-drop, length-take, length-drop, le→ltb, arith,
}

abbrev pub nonce_len : ℕ
nonce_len = 12

abbrev pub aead_tag_len : ℕ
aead_tag_len = 16

abbrev pub min_sealed_len : ℕ
min_sealed_len = nonce_len + aead_tag_len

pub record SealedField : Type 0 where
  pub nonce : List ℕ
  pub ciphertext : List ℕ
  pub aead_tag : List ℕ

pub data SealedFieldError : Type 0 where
  too_short : ℕ → SealedFieldError

unfoldable pub to_wire : SealedField → List ℕ
to_wire s = s.nonce ++ (s.ciphertext ++ s.aead_tag)

unfoldable pub from_wire : List ℕ → Result SealedFieldError SealedField
from_wire bytes =
    let tag_offset = length bytes - aead_tag_len in
    if ltb (length bytes) min_sealed_len
    then err (too_short (length bytes))
    else ok (record {
      nonce = take nonce_len bytes;
      ciphertext = take (tag_offset - nonce_len) (drop nonce_len bytes);
      aead_tag = drop tag_offset bytes;
    })

unfoldable pub wire_len : SealedField → ℕ
wire_len s = nonce_len + length s.ciphertext + aead_tag_len

-- The array types of the nonce and the tag.
pub record IsSized (s : SealedField) : Type 0 where
  pub nonce_lem : length s.nonce ≡ 12
  pub tag_lem : length s.aead_tag ≡ 16

length-to_wire : (s : SealedField) → IsSized s → length (to_wire s) ≡ length s.ciphertext + 28
unfolding to_wire
length-to_wire s h = omega (
  arith,
  length-append s.nonce (s.ciphertext ++ s.aead_tag),
  length-append s.ciphertext s.aead_tag,
  h.nonce_lem,
  h.tag_lem,
)

-- Parsing a sealed field's wire bytes gives the field back, whatever its ciphertext, if its nonce and tag
-- have their array lengths.
pub from_wire-to_wire : (s : SealedField) → IsSized s → from_wire (to_wire s) ≡ ok s
unfolding from_wire to_wire
from_wire-to_wire s h =
    let body : List ℕ = s.ciphertext ++ s.aead_tag in
    let all : length (s.nonce ++ body) ≡ length s.ciphertext + 28 =
      unfold to_wire in length-to_wire s h in
    let front : List ℕ = s.nonce ++ s.ciphertext in
    let hf : length front ≡ length s.ciphertext + 12 =
      omega (arith, length-append s.nonce s.ciphertext, h.nonce_lem) in
    let end : drop (length s.ciphertext + 28 - 16) (s.nonce ++ body) ≡ s.aead_tag =
      ap (drop (length s.ciphertext + 28 - 16)) (sym (append_assoc s.nonce s.ciphertext s.aead_tag))
      ∙ drop-append _ front s.aead_tag (omega (arith, hf)) in
    rw (
      le→ltb (length (s.nonce ++ body)) 28 (omega (arith, all)),
      all,
      take-append 12 s.nonce body h.nonce_lem,
      drop-append 12 s.nonce body h.nonce_lem,
      take-append (length s.ciphertext + 28 - 16 - 12) s.ciphertext s.aead_tag (omega arith),
      end,
    )

from_wire_inv :
    (bytes : List ℕ) (s : SealedField)
    → from_wire bytes ≡ ok s
    → (28 ≤ length bytes)
      × (s ≡ record {
        nonce = take 12 bytes;
        ciphertext = take (length bytes - 16 - 12) (drop 12 bytes);
        aead_tag = drop (length bytes - 16) bytes;
      })
unfolding from_wire
from_wire_inv bytes s e = ground arith

drop-nil : (j : ℕ) → drop {A = ℕ} j [] ≡ []
drop-nil zero = refl
drop-nil (suc j) = refl

drop-drop : (j k m : ℕ) (bytes : List ℕ) → m ≡ k + j → drop j (drop k bytes) ≡ drop m bytes
drop-drop j zero m bytes h = ap (λ i. drop i bytes) (omega arith)
drop-drop j (suc k) zero bytes h = absurd (omega arith)
drop-drop j (suc k) (suc m) [] h = drop-nil j
drop-drop j (suc k) (suc m) (b ∷ bytes) h = drop-drop j k m bytes (omega arith)

-- A sealed field that the parser accepts has the array lengths, is as long as the input says, and its wire
-- form is the input.
pub to_wire-from_wire :
    (bytes : List ℕ) (s : SealedField)
    → from_wire bytes ≡ ok s
    → IsSized s × (to_wire s ≡ bytes) × (wire_len s ≡ length bytes)
unfolding to_wire wire_len
to_wire-from_wire bytes s e =
    let (long, es) = from_wire_inv bytes s e in
    let n = length bytes in
    let body : List ℕ = drop 12 bytes in
    let hb : length body ≡ n - 12 = length-drop 12 bytes in
    let middle : length (take (n - 16 - 12) body) ≡ n - 16 - 12 =
      length-take (n - 16 - 12) body (omega arith) in
    let tail : drop (n - 16) bytes ≡ drop (n - 16 - 12) body =
      sym (drop-drop (n - 16 - 12) 12 (n - 16) bytes (omega arith)) in
    rw es (
      record {
        nonce_lem = length-take 12 bytes (omega arith);
        tag_lem = length-drop (n - 16) bytes ∙ omega arith;
      },
      rw (tail, take-append-drop (n - 16 - 12) body) (take-append-drop 12 bytes),
      omega (arith, middle),
    )

-- Exactly the inputs shorter than nonce and tag together are refused, and the error names their length.
pub from_wire_too_short :
    (bytes : List ℕ) → (from_wire bytes ≡ err (too_short (length bytes))) ↔ (length bytes < 28)
unfolding from_wire
from_wire_too_short bytes = (λ h. ground arith, λ h. ground arith)
