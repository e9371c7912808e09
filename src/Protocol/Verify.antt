-- ===== src/Protocol/Verify.antt =====
-- protocol/src/verify.rs: `signer_pubkey_from_event` and `verify_event`.
pub mod Laws
pub mod Injective
pub mod Scheme
use komms_cli.Base.{
  ℕ, List, [], ◌∷◌, Bool, true, false, Option, none, some, Result, ok, err, ◌>>=◌, ◌>>◌, map_err,
  ok_or, guard,
}
use komms_cli.Protocol.Event.{ParsedKommsEvent, ValidationError}
use komms_cli.Protocol.Ciborium.{Ciborium}
use komms_cli.Protocol.Encode.{signing_payload_cbor}

pub data SignerPubkey : Type 0 where
  in_band : List ℕ → SignerPubkey
  out_of_band : SignerPubkey

pub data VerifyError : Type 0 where
  signature_missing invalid_pubkey signature_invalid : VerifyError
  encode : ValidationError → VerifyError

-- The `ed25519_dalek` crate as the code uses it: reading a verifying key, and strict verification.
pub record Ed25519 : Type 1 where
  pub VerifyingKey : Type 0
  pub from_bytes : List ℕ → Option VerifyingKey
  -- key, message, signature
  pub verify_strict : VerifyingKey → List ℕ → List ℕ → Bool

unfoldable pub signer_pubkey_from_event : {Value : Type 0} → ParsedKommsEvent Value → SignerPubkey
signer_pubkey_from_event ev = elim ev.device_pk [ some dpk ↦ in_band dpk | none ↦ out_of_band ]

module _ (C : Ciborium) (E : Ed25519) where
  unfoldable pub verify_event : ParsedKommsEvent C.Value → List ℕ → Result VerifyError (Unit {0})
  verify_event ev pubkey = do
    sig_bytes ← ok_or ev.sig signature_missing
    signing_bytes ← map_err encode (signing_payload_cbor C ev)
    key ← ok_or (E.from_bytes pubkey) invalid_pubkey
    guard (E.verify_strict key signing_bytes sig_bytes) signature_invalid
