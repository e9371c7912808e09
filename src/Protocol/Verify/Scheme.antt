-- ===== src/Protocol/Verify/Scheme.antt =====
-- protocol/src/verify.rs: the signature of a v0 event, and its scheme.
use komms_cli.Base.{ℕ, List, Option, ok, ◌≡◌, refl, ap, sym, ◌∙◌}
use komms_cli.Protocol.Event.{ParsedKommsEvent}
use komms_cli.Protocol.Ciborium.{Ciborium}
use komms_cli.Protocol.Validate.Defs.{validate_event}
use komms_cli.Protocol.Encode.{
  signing_payload_cbor, event_value, event_fields, v0_slots, v1_slots, v1_1_slots, role_slots,
}
use komms_cli.Protocol.RoundTrip.Fields.{encode_cbor_map_inv}
use komms_cli.Protocol.Typed.Reencode.{encode_cbor_map_valid}
use komms_cli.Protocol.Verify.{Ed25519, verify_event}
use komms_cli.Protocol.Verify.Laws.{verify_event_iff, unsigned}

abbrev pub with_scheme :
    {Value : Type 0} → Option ℕ → ParsedKommsEvent Value → ParsedKommsEvent Value
with_scheme scheme ev = record ev { enc_scheme = scheme }

module _ (C : Ciborium) (ev : ParsedKommsEvent C.Value) (scheme : Option ℕ) where
  event_value-with_scheme :
      ev.v ≡ 0 → event_value C (unsigned (with_scheme scheme ev)) ≡ event_value C (unsigned ev)
  unfolding event_value event_fields v0_slots v1_slots v1_1_slots role_slots
  event_value-with_scheme v0 = rw v0 refl

  -- The scheme of a v0 event is not signed, though key 13 is read from a v0 payload that has it: when an event of
  -- version 0 verifies, so does the event with any other scheme for which it is still valid without its
  -- signature.
  pub verify_event-with_scheme :
      (E : Ed25519) (pubkey : List ℕ)
      → ev.v ≡ 0
      → validate_event (unsigned (with_scheme scheme ev)) ≡ ok tt
      → verify_event C E ev pubkey ≡ ok tt
      → verify_event C E (with_scheme scheme ev) pubkey ≡ ok tt
  unfolding signing_payload_cbor
  verify_event-with_scheme E pubkey v0 valid e =
      let (sig, message, key, e₁, e₂, e₃, e₄) = (verify_event_iff C E ev pubkey).0 e in
      let (was_valid, ec) = encode_cbor_map_inv C (unsigned ev) message e₂ in
      let signed : signing_payload_cbor C (with_scheme scheme ev) ≡ ok message =
        encode_cbor_map_valid C (unsigned (with_scheme scheme ev)) valid
        ∙ ap (λ v. ok (C.into_writer v)) (event_value-with_scheme v0)
        ∙ ap ok (sym ec) in
      (verify_event_iff C E (with_scheme scheme ev) pubkey).1
        (sig, message, key, e₁, signed, e₃, e₄)
