-- ===== src/Protocol/Verify/Laws.antt =====
-- What a verified signature says about an event.
use komms_cli.Base.{
  ◌↔◌, ℕ, List, Bool, true, false, none, some, ok, ◌≡◌, >>=-eq-ok, >>-eq-ok, map_err, ok_or, refl,
  arith,
}
use komms_cli.Protocol.EventType.{EventType, device_register, device_revoke, sealed_member_leave}
use komms_cli.Protocol.Event.{ParsedKommsEvent}
use komms_cli.Protocol.Ciborium.{Ciborium}
use komms_cli.Protocol.Encode.{signing_payload_cbor}
use komms_cli.Base.{◌≢◌}
use komms_cli.Protocol.Validate.Guards.{
  check_envelope, check_fields, check_v1_if, check_sealed_sender, check_group,
}
use komms_cli.Protocol.Validate.Defs.{validate_event}
use komms_cli.Protocol.Validate.ByType.{
  check_type, check_device_register, check_device_revoke, check_sealed_leave,
}
use komms_cli.Protocol.RoundTrip.Fields.{encode_cbor_map_inv}
use komms_cli.Protocol.Verify.{Ed25519, verify_event, signature_missing, invalid_pubkey, encode}

-- The event types that validation refuses without a signature.
abbrev pub needs_sig : EventType → Bool
needs_sig device_register = true
needs_sig device_revoke = true
needs_sig sealed_member_leave = true
needs_sig _ = false

module _ (C : Ciborium) (E : Ed25519) where
  verify_event_sound :
      (ev : ParsedKommsEvent C.Value) (pubkey : List ℕ)
      → verify_event C E ev pubkey ≡ ok tt
      → (sig : List ℕ) × (message : List ℕ) × (key : E.VerifyingKey) × (ev.sig ≡ some sig)
        × (signing_payload_cbor C ev ≡ ok message)
        × (E.from_bytes pubkey ≡ some key)
        × (E.verify_strict key message sig ≡ true)
  unfolding verify_event
  verify_event_sound ev pubkey e =
      let (sig, e₁, r₁) = >>=-eq-ok (ok_or ev.sig signature_missing) _ e in
      let (message, e₂, r₂) = >>=-eq-ok (map_err encode (signing_payload_cbor C ev)) _ r₁ in
      let (key, e₃, r₃) = >>=-eq-ok (ok_or (E.from_bytes pubkey) invalid_pubkey) _ r₂ in
      (sig, message, key, ground arith, ground arith, ground arith, ground arith)

-- Without a signature, no event of a type that needs one is valid.
needs_sig-check_type :
    {Value : Type 0} (t : EventType) (ev : ParsedKommsEvent Value)
    → needs_sig t ≡ true
    → ev.sig ≡ none
    → check_type t ev ≢ ok tt
unfolding check_type check_device_register check_device_revoke check_sealed_leave
needs_sig-check_type device_register ev h s e = ground arith
needs_sig-check_type device_revoke ev h s e = ground arith
needs_sig-check_type sealed_member_leave ev h s e = ground arith
needs_sig-check_type _ ev h s e = ground arith

needs_sig-validate_event :
    {Value : Type 0} (ev : ParsedKommsEvent Value)
    → needs_sig ev.t ≡ true
    → ev.sig ≡ none
    → validate_event ev ≢ ok tt
unfolding validate_event
needs_sig-validate_event ev h s e =
    let (u₁, e₁) = >>-eq-ok (check_envelope ev) e in
    let (u₂, e₂) = >>-eq-ok (check_fields ev) e₁ in
    let (u₃, e₃) = >>-eq-ok (check_v1_if ev) e₂ in
    let (u₄, e₄) = >>-eq-ok (check_sealed_sender ev) e₃ in
    let (u₅, e₅) = >>-eq-ok (check_group ev) e₄ in needs_sig-check_type ev.t ev h s e₅

verify_event_complete :
    (C : Ciborium) (E : Ed25519) (ev : ParsedKommsEvent C.Value) (pubkey sig message : List ℕ)
    (key : E.VerifyingKey)
    → ev.sig ≡ some sig
    → signing_payload_cbor C ev ≡ ok message
    → E.from_bytes pubkey ≡ some key
    → E.verify_strict key message sig ≡ true
    → verify_event C E ev pubkey ≡ ok tt
unfolding verify_event
verify_event_complete C E ev pubkey sig message key e₁ e₂ e₃ e₄ = rw (e₂, e₃, e₁, e₄) refl

-- Verification accepts an event exactly when it carries a signature, its signing payload encodes, the key
-- bytes are a key, and strict verification accepts that signature of that payload under that key.
pub verify_event_iff :
    (C : Ciborium) (E : Ed25519) (ev : ParsedKommsEvent C.Value) (pubkey : List ℕ)
    → (verify_event C E ev pubkey ≡ ok tt) ↔ (
        (sig : List ℕ) × (message : List ℕ) × (key : E.VerifyingKey) × (ev.sig ≡ some sig)
        × (signing_payload_cbor C ev ≡ ok message)
        × (E.from_bytes pubkey ≡ some key)
        × (E.verify_strict key message sig ≡ true))
verify_event_iff C E ev pubkey = (
  verify_event_sound C E ev pubkey,
  λ (sig, message, key, e₁, e₂, e₃, e₄).
      verify_event_complete C E ev pubkey sig message key e₁ e₂ e₃ e₄,
)

-- No event of a type that validation refuses without a signature ever verifies: its signing payload is
-- encoded without key 11, and that event is not valid.
pub verify_event-needs_sig :
    (C : Ciborium) (E : Ed25519) (ev : ParsedKommsEvent C.Value) (pubkey : List ℕ)
    → needs_sig ev.t ≡ true
    → verify_event C E ev pubkey ≢ ok tt
unfolding signing_payload_cbor
verify_event-needs_sig C E ev pubkey h e =
    let (sig, message, key, e₁, e₂, e₃, e₄) = verify_event_sound C E ev pubkey e in
    let (valid, ec) = encode_cbor_map_inv C (record ev { sig = none }) message e₂ in
    needs_sig-validate_event (record ev { sig = none }) h refl valid

-- The event as it is signed.
abbrev pub unsigned : {Value : Type 0} → ParsedKommsEvent Value → ParsedKommsEvent Value
unsigned ev = record ev { sig = none }
