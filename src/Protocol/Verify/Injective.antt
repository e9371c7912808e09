-- ===== src/Protocol/Verify/Injective.antt =====
-- protocol/src/verify.rs: which event a signing payload stands for.
use komms_cli.Base.{
  ℕ, IsU64, true, false, Bool, Option, List, some, none, ok, ◌≡◌, refl, sym, ap, ◌∙◌, if◌then◌else◌,
  ◌==◌, Bool-cases, inl, inr, arith,
}
use komms_cli.Protocol.EventType.{as_u8, from_u8}
use komms_cli.Protocol.Event.{ParsedKommsEvent}
use komms_cli.Protocol.FieldMap.{Ascends, Below}
use komms_cli.Protocol.Ciborium.{Ciborium}
use komms_cli.Protocol.Encode.{
  signing_payload_cbor, event_value, event_fields, v0_slots, v1_slots, v1_1_slots, role_slots,
}
use komms_cli.Protocol.RoundTrip.WellTyped.{IsWellTyped, Holds}
use komms_cli.Protocol.RoundTrip.Fields.{
  IsEncodable, encode_cbor_map_inv, parse_cbor_map-event_value,
}
use komms_cli.Protocol.Parse.Stages.{parse_cbor_map}
use komms_cli.Protocol.Verify.Laws.{unsigned}

-- The values have their Rust types, the event type is not a `Reserved` of an enumerated discriminant, and the
-- extension fields form a map over keys 33 to 255. Nothing is asked of the scheme of a v0 event.
pub record IsSignable {Value : Type 0} (ev : ParsedKommsEvent Value) : Type 0 where
  pub typed : IsWellTyped ev
  pub type_lem : from_u8 (as_u8 ev.t) ≡ ev.t
  pub extension_ascends : Ascends 33 ev.extension_fields
  pub extension_u8 : Below 256 ev.extension_fields

-- The event without its signature and, in version 0, with the scheme that its `enc` flag stands for.
abbrev pub signed_part : {Value : Type 0} → ParsedKommsEvent Value → ParsedKommsEvent Value
signed_part ev = record ev {
  sig = none;
  enc_scheme = if ev.v == 0 then some (if ev.enc then 1 else 0) else ev.enc_scheme;
}

signed_scheme :
    (enc v0 : Bool) (scheme : Option ℕ)
    → Holds (λ x. IsU64 x) scheme
    → Holds (λ x. IsU64 x) (if v0 then some (if enc then 1 else 0) else scheme)
signed_scheme true true scheme h = omega arith
signed_scheme false true scheme h = omega arith
signed_scheme enc false scheme h = h

IsWellTyped-signed_part :
    {Value : Type 0} (ev : ParsedKommsEvent Value)
    → IsWellTyped (unsigned ev)
    → IsWellTyped (signed_part ev)
IsWellTyped-signed_part ev w = record {
  v_u64 = w.v_u64;
  t_u8 = w.t_u8;
  sid_len = w.sid_len;
  cid_len = w.cid_len;
  did_len = w.did_len;
  pid_len = w.pid_len;
  mid_len = w.mid_len;
  ts_u64 = w.ts_u64;
  n_u64 = w.n_u64;
  sig_len = w.sig_len;
  parent_mid_len = w.parent_mid_len;
  enc_scheme_u64 = signed_scheme ev.enc (ev.v == 0) ev.enc_scheme w.enc_scheme_u64;
  kind_u64 = w.kind_u64;
  ref_type_u64 = w.ref_type_u64;
  device_pk_len = w.device_pk_len;
  sig_scheme_u64 = w.sig_scheme_u64;
  member_tag_len = w.member_tag_len;
  match_tag_len = w.match_tag_len;
  key_epoch_u64 = w.key_epoch_u64;
  role_u8 = w.role_u8;
}

module _ (C : Ciborium) where
  event_value-signed_part :
      (ev : ParsedKommsEvent C.Value) → event_value C (signed_part ev) ≡ event_value C (unsigned ev)
  unfolding event_value event_fields v0_slots v1_slots v1_1_slots role_slots
  event_value-signed_part ev = elim (Bool-cases (ev.v == 0)) [
    | inl h ↦ let v0 : ev.v ≡ 0 = ground (arith, h) in rw v0 refl
    | inr h ↦ rw h refl
  ]

  -- The parser reads the signed part back from the signing payload.
  parse_cbor_map-signing_payload_cbor :
      (ev : ParsedKommsEvent C.Value) (message : List ℕ)
      → IsEncodable (signed_part ev)
      → C.from_reader (C.into_writer (event_value C (unsigned ev)))
        ≡ ok (event_value C (unsigned ev))
      → signing_payload_cbor C ev ≡ ok message
      → parse_cbor_map C message ≡ ok (signed_part ev)
  unfolding signing_payload_cbor
  parse_cbor_map-signing_payload_cbor ev message enc read e =
      let (valid, ec) = encode_cbor_map_inv C (unsigned ev) message e in
      parse_cbor_map-event_value C (signed_part ev) enc message
        (ap C.from_reader ec ∙ read ∙ ap ok (sym (event_value-signed_part ev)))

  IsEncodable-signed_part :
      (ev : ParsedKommsEvent C.Value) → IsSignable (unsigned ev) → IsEncodable (signed_part ev)
  IsEncodable-signed_part ev s = record {
    typed = IsWellTyped-signed_part ev s.typed;
    type_lem = s.type_lem;
    v0_scheme = λ h. rw h refl;
    extension_ascends = s.extension_ascends;
    extension_u8 = s.extension_u8;
  }

  -- Two events with the same signing payload agree in every field but the signature and, in version 0, the
  -- encryption scheme, which that payload does not carry. Their values have their Rust types, neither type is
  -- a `Reserved` of an enumerated discriminant, their extension fields ascend within keys 33 to 255, and
  -- ciborium reads back what it writes for them without their signatures.
  pub signing_payload_cbor-injective :
      (ev other : ParsedKommsEvent C.Value) (message : List ℕ)
      → IsSignable (unsigned ev)
      → IsSignable (unsigned other)
      → C.from_reader (C.into_writer (event_value C (unsigned ev)))
        ≡ ok (event_value C (unsigned ev))
      → C.from_reader (C.into_writer (event_value C (unsigned other)))
        ≡ ok (event_value C (unsigned other))
      → signing_payload_cbor C ev ≡ ok message
      → signing_payload_cbor C other ≡ ok message
      → signed_part ev ≡ signed_part other
  signing_payload_cbor-injective ev other message h k read read' e e' =
      let first =
        parse_cbor_map-signing_payload_cbor ev message (IsEncodable-signed_part ev h) read e in
      let second =
        parse_cbor_map-signing_payload_cbor other message (IsEncodable-signed_part other k) read'
          e' in
      cc (first, second)
