-- ===== src/Crypto/Aead.antt =====
-- crypto/src/aead.rs: AES-256-GCM seal and open, with the associated data of a field.
use komms_cli.Base.{
  ℕ, ◌+◌, ◌-◌, ◌≡◌, sym, ap, ◌∙◌, List, [], ◌∷◌, ◌++◌, Option, some, Result, ok, ok_or,
  if◌then◌else◌, ltb, length, take, drop, take-append-drop, length-take, length-drop, arith,
  to_be_bytes, from_be-to_be, length-to_be_bytes, IsU64, ascii, append-injective,
}
use komms_cli.Crypto.Sealed.{SealedField, IsSized, aead_tag_len}

pub data AeadError : Type 0 where
  tag too_short : AeadError

pub record AadContext : Type 0 where
  pub cbor_key : ℕ
  pub server_id : List ℕ
  pub key_epoch : ℕ
  pub extra : List ℕ

abbrev pub aad_domain : List ℕ
aad_domain = ascii "komms/v1.1/aead"

abbrev pub u32_max : ℕ
u32_max = 0xFFFF_FFFF

-- `u32::try_from(len).unwrap_or(u32::MAX)`
abbrev pub saturate_u32 : ℕ → ℕ
saturate_u32 len = if ltb u32_max len then u32_max else len

unfoldable pub encode : AadContext → List ℕ
encode aad =
    aad_domain
    ++ (0x01
        ∷ aad.cbor_key
        ∷ 0x20
        ∷ (aad.server_id
            ++ (0x08
                ∷ (to_be_bytes 8 aad.key_epoch
                    ++ (to_be_bytes 4 (saturate_u32 (length aad.extra)) ++ aad.extra)))))

-- The `aes_gcm` crate: encryption appends the tag; decryption checks it. A key and a nonce are bytes.
pub record Aes256Gcm : Type 0 where
  pub encrypt : List ℕ → List ℕ → List ℕ → List ℕ → List ℕ
  pub decrypt : List ℕ → List ℕ → List ℕ → List ℕ → Option (List ℕ)
  -- key, nonce, message, associated data
  pub decrypt-encrypt :
      (key nonce msg aad : List ℕ) → decrypt key nonce (encrypt key nonce msg aad) aad ≡ some msg
  pub length-encrypt :
      (key nonce msg aad : List ℕ) → length (encrypt key nonce msg aad) ≡ length msg + 16

module _ (cipher : Aes256Gcm) where
  open cipher use {encrypt, decrypt, decrypt-encrypt, length-encrypt}

  -- `nonce` is what `OsRng` drew.
  unfoldable pub seal_field : List ℕ → List ℕ → AadContext → List ℕ → SealedField
  seal_field nonce key aad plaintext =
      let ct = encrypt key nonce plaintext (encode aad) in
      let tag_offset = length ct - aead_tag_len in
      record { nonce = nonce; ciphertext = take tag_offset ct; aead_tag = drop tag_offset ct }

  unfoldable pub open_field : List ℕ → AadContext → SealedField → Result AeadError (List ℕ)
  open_field key aad sealed =
      ok_or (decrypt key sealed.nonce (sealed.ciphertext ++ sealed.aead_tag) (encode aad)) tag

  -- Opening what was sealed, under the same key and associated data, gives the plaintext back; the sealed
  -- field has the array lengths of its wire form, and a ciphertext as long as the plaintext.
  pub open_field-seal_field :
      (nonce key : List ℕ) (aad : AadContext) (plaintext : List ℕ)
      → length nonce ≡ 12
      → (open_field key aad (seal_field nonce key aad plaintext) ≡ ok plaintext)
        × IsSized (seal_field nonce key aad plaintext)
        × (length (seal_field nonce key aad plaintext).ciphertext ≡ length plaintext)
  unfolding open_field seal_field
  open_field-seal_field nonce key aad plaintext h =
      let ct = encrypt key nonce plaintext (encode aad) in
      let hl : length ct ≡ length plaintext + 16 =
        length-encrypt key nonce plaintext (encode aad) in
      (
        rw (take-append-drop (length ct - 16) ct, decrypt-encrypt key nonce plaintext (encode aad)),
        record { nonce_lem = h; tag_lem = length-drop (length ct - 16) ct ∙ omega arith },
        length-take (length ct - 16) ct (omega arith) ∙ omega arith,
      )

-- The Rust types of the associated data.
pub record IsAad (aad : AadContext) : Type 0 where
  pub server_id_lem : length aad.server_id ≡ 32
  pub key_epoch_lem : IsU64 aad.key_epoch

to_be-injective : (a b : ℕ) → IsU64 a → IsU64 b → to_be_bytes 8 a ≡ to_be_bytes 8 b → a ≡ b
to_be-injective a b ha hb e = cc (from_be-to_be 8 a ha, from_be-to_be 8 b hb)

abbrev head_or : ℕ → List ℕ → ℕ
head_or d [] = d
head_or d (x ∷ xs) = x

AadContext_eq :
    (a b : AadContext)
    → a.cbor_key ≡ b.cbor_key
    → a.server_id ≡ b.server_id
    → a.key_epoch ≡ b.key_epoch
    → a.extra ≡ b.extra
    → a ≡ b
AadContext_eq a b p q r s =
    λ i. record { cbor_key = p i; server_id = q i; key_epoch = r i; extra = s i }

-- Different contexts have different associated data: the encoding determines the destination field, the
-- server, the epoch and the extra bytes, also where the length of `extra` saturates.
pub encode-injective : (a b : AadContext) → IsAad a → IsAad b → encode a ≡ encode b → a ≡ b
unfolding encode
encode-injective a b ha hb e =
    let key : a.cbor_key ≡ b.cbor_key = ap (λ l. head_or 0 (drop 16 l)) e in
    let (sid, e₁) =
      append-injective a.server_id _ b.server_id _
        (omega (arith, ha.server_id_lem, hb.server_id_lem)) (ap (drop 18) e) in
    let (epoch, e₂) =
      append-injective (to_be_bytes 8 a.key_epoch) _ (to_be_bytes 8 b.key_epoch) _
        (length-to_be_bytes 8 a.key_epoch ∙ sym (length-to_be_bytes 8 b.key_epoch))
        (ap (drop 1) e₁) in
    let (len, extra) =
      append-injective (to_be_bytes 4 (saturate_u32 (length a.extra))) a.extra
        (to_be_bytes 4 (saturate_u32 (length b.extra))) b.extra
        (length-to_be_bytes 4 _ ∙ sym (length-to_be_bytes 4 _)) e₂ in
    AadContext_eq a b key sid
      (to_be-injective a.key_epoch b.key_epoch ha.key_epoch_lem hb.key_epoch_lem epoch) extra
