-- ===== src/Examples/Crypto.antt =====
-- The crypto helpers on small inputs, with toy primitives.
use komms_cli.Base.{
  ℕ, zero, suc, List, [], ◌∷◌, ◌++◌, some, ok, ◌≡◌, ◌<◌, refl, sym, length, drop, arith,
}
use mathlib.Core.List.Perm
use komms_cli.Canonical.Grammar.{head, number, arg_code, arg_bytes}
use komms_cli.Canonical.Walk.{validate_canonical}
use komms_cli.Crypto.Sealed.{
  SealedField, IsSized, to_wire, wire_len, from_wire-to_wire, to_wire-from_wire,
}
use komms_cli.Crypto.Aead.{
  AadContext, IsAad, Aes256Gcm, seal_field, open_field, open_field-seal_field, encode-injective,
}
use komms_cli.Crypto.Kdf.{Derivation, channel}
use komms_cli.Crypto.StateHash.Defs.{ProjectedEvent, state_hash_next, event_array}
use komms_cli.Crypto.StateHash.Order.{state_hash_next-Perm}
use komms_cli.Crypto.StateHash.Array.{event_array-canonical}
use komms_cli.Crypto.RequestAuth.{IsLine, canonical_input-injective}

abbrev copies : ℕ → ℕ → List ℕ
copies zero b = []
copies (suc n) b = b ∷ copies n b

abbrev field : SealedField
field = record { nonce = copies 12 1; ciphertext = 104 ∷ 105 ∷ []; aead_tag = copies 16 2 }

field-IsSized : IsSized field
field-IsSized = record { nonce_lem = refl; tag_lem = refl }

to_wire-from_wire_example :
    IsSized field × (to_wire field ≡ to_wire field) × (wire_len field ≡ length (to_wire field))
to_wire-from_wire_example =
    to_wire-from_wire (to_wire field) field (from_wire-to_wire field field-IsSized)

-- A cipher that puts sixteen zeros before the message.
abbrev toy : Aes256Gcm
toy = record {
  encrypt = λ key nonce text aad. copies 16 0 ++ text;
  decrypt = λ key nonce ct aad. some (drop 16 ct);
  decrypt-encrypt = λ key nonce text aad. refl;
  length-encrypt = λ key nonce text aad. omega arith;
}

abbrev aad : AadContext
aad = record { cbor_key = 23; server_id = copies 32 1; key_epoch = 2; extra = 9 ∷ [] }

aad-IsAad : IsAad aad
aad-IsAad = record { server_id_lem = refl; key_epoch_lem = omega arith }

open_field-seal_field_example :
    (open_field toy (copies 32 3) aad (seal_field toy (copies 12 4) (copies 32 3) aad (104 ∷ []))
      ≡ ok (104 ∷ []))
    × IsSized (seal_field toy (copies 12 4) (copies 32 3) aad (104 ∷ []))
    × (length (seal_field toy (copies 12 4) (copies 32 3) aad (104 ∷ [])).ciphertext ≡ 1)
open_field-seal_field_example =
    open_field-seal_field toy (copies 12 4) (copies 32 3) aad (104 ∷ []) refl

encode-injective_example : aad ≡ aad
encode-injective_example = encode-injective aad aad aad-IsAad aad-IsAad refl

abbrev derivation : Derivation
derivation = channel (copies 32 1) (copies 32 2) 7

abbrev projected : ℕ → ProjectedEvent
projected id = record { tx_id = copies 32 id; canonical_cbor = id ∷ [] }

-- The projection that a transaction id of one repeated byte determines.
abbrev first : List ℕ → List ℕ
first [] = []
first (x ∷ xs) = x ∷ []

state_hash_next-Perm_example :
    state_hash_next (λ b. b) (copies 32 0) (projected 2 ∷ projected 1 ∷ [])
    ≡ state_hash_next (λ b. b) (copies 32 0) (projected 1 ∷ projected 2 ∷ [])
state_hash_next-Perm_example =
    state_hash_next-Perm (λ b. b) first (copies 32 0) (projected 2 ∷ projected 1 ∷ [])
      (projected 1 ∷ projected 2 ∷ []) (refl, (refl, tt)) (Perm.swap (projected 1) (projected 2) [])

item : (n : ℕ) → n < 24 → head 0 n ≡ n ∷ []
unfolding head arg_code arg_bytes
item n h = ground arith

event_array-canonical_example :
    validate_canonical (event_array (projected 2 ∷ projected 1 ∷ [])) ≡ ok tt
event_array-canonical_example =
    event_array-canonical (projected 2 ∷ projected 1 ∷ []) (omega arith) (
      number 0 2 (omega arith) (omega arith) (sym (item 2 (omega arith))),
      (number 0 1 (omega arith) (omega arith) (sym (item 1 (omega arith))), tt),
    )

abbrev caller : List ℕ
caller = 97 ∷ []

abbrev ts : List ℕ
ts = 49 ∷ []

abbrev method : List ℕ
method = 71 ∷ []

abbrev path : List ℕ
path = 47 ∷ []

abbrev body : List ℕ
body = 10 ∷ []

lines : IsLine caller × IsLine ts × IsLine method × IsLine path
lines = (
  (λ e. omega (arith, e), tt),
  (λ e. omega (arith, e), tt),
  (λ e. omega (arith, e), tt),
  (λ e. omega (arith, e), tt),
)

canonical_input-injective_example :
    (caller ≡ caller) × (ts ≡ ts) × (method ≡ method) × (path ≡ path) × (body ≡ body)
canonical_input-injective_example =
    canonical_input-injective caller ts method path body caller ts method path body lines lines refl
