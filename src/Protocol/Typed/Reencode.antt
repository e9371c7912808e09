-- ===== src/Protocol/Typed/Reencode.antt =====
-- protocol/src/encode.rs, protocol/src/lib.rs: which events are encoded, and that what is parsed can be written
-- again.
use komms_cli.Base.{ℕ, List, ◌++◌, Option, none, some, ok, ◌≡◌, ◌↔◌, refl, >>-eq-ok, if◌then◌else◌}
use komms_cli.Protocol.Event.{ParsedKommsEvent, komms_payload_prefix}
use komms_cli.Protocol.Ciborium.{Ciborium, Writes}
use komms_cli.Protocol.Validate.Guards.{check_ref, validate_ref, check_envelope, check_fields}
use komms_cli.Protocol.Validate.Defs.{validate_event}
use komms_cli.Protocol.Encode.{encode_cbor_map, encode_komms_payload, event_value, recheck_ref}
use komms_cli.Protocol.Payload.{parse_komms_payload}
use komms_cli.Protocol.Payload.Laws.{parse_komms_payload_inv, read_payload_inv}
use komms_cli.Protocol.RoundTrip.Fields.{IsEncodable}
use komms_cli.Protocol.RoundTrip.Written.{Fits}
use komms_cli.Protocol.RoundTrip.Payload.{
  encode_komms_payload_inv, parse_komms_payload-encode_komms_payload,
}
use komms_cli.Protocol.Typed.Parsed.{IsParsed, parse_cbor_map-IsParsed}

-- The second check of `ref` adds nothing.
pub recheck_ref-check_ref :
    (o : Option (List ℕ)) (ref_type : Option ℕ)
    → check_ref o ref_type ≡ ok tt
    → recheck_ref o ≡ ok tt
unfolding recheck_ref check_ref
recheck_ref-check_ref none ref_type h = refl
recheck_ref-check_ref (some r) ref_type h = (>>-eq-ok (validate_ref r) h).0

recheck_ref-validate_event :
    {Value : Type 0} (ev : ParsedKommsEvent Value)
    → validate_event ev ≡ ok tt
    → recheck_ref ev.ref_bytes ≡ ok tt
unfolding validate_event check_fields
recheck_ref-validate_event ev e =
    let (u₁, e₁) = >>-eq-ok (check_envelope ev) e in
    let (u₂, e₂) = >>-eq-ok (check_fields ev) e₁ in
    let (u₃, e₃) = >>-eq-ok (check_ref ev.ref_bytes ev.ref_type) u₂ in
    recheck_ref-check_ref ev.ref_bytes ev.ref_type u₃

module _ (C : Ciborium) (ev : ParsedKommsEvent C.Value) where
  pub encode_cbor_map_valid :
      validate_event ev ≡ ok tt → encode_cbor_map C ev ≡ ok (C.into_writer (event_value C ev))
  unfolding encode_cbor_map
  encode_cbor_map_valid valid = rw (valid, recheck_ref-validate_event ev valid) refl

  encode_komms_payload_valid :
      validate_event ev ≡ ok tt
      → encode_komms_payload C ev ≡ ok (komms_payload_prefix ++ C.into_writer (event_value C ev))
  unfolding encode_komms_payload
  encode_komms_payload_valid valid = rw (encode_cbor_map_valid valid) refl

  -- An event is encoded exactly if it passes validation, and then as the prefix and its CBOR map.
  pub encode_komms_payload_iff :
      (raw : List ℕ)
      → (encode_komms_payload C ev ≡ ok raw) ↔ (
          (validate_event ev ≡ ok tt)
          × (raw ≡ komms_payload_prefix ++ C.into_writer (event_value C ev)))
  encode_komms_payload_iff raw = (
    encode_komms_payload_inv C ev raw,
    λ (valid, same). rw same (encode_komms_payload_valid valid),
  )

  IsEncodable-IsParsed :
      IsParsed ev → (ev.v ≡ 0 → ev.enc_scheme ≡ some (if ev.enc then 1 else 0)) → IsEncodable ev
  IsEncodable-IsParsed p scheme = record {
    typed = p.typed;
    type_lem = p.type_lem;
    v0_scheme = scheme;
    extension_ascends = p.extension_ascends;
    extension_u8 = p.extension_u8;
  }

  -- A payload that is accepted can be written again: its event is encoded, and what is written is read as the
  -- same event. A v0 event has the scheme of its `enc`, its byte strings fit a CBOR length, its extension values
  -- are written canonically, the CBOR writer writes the smallest heads, and the reader reads back the value that
  -- is written.
  pub parse_komms_payload-reencodes :
      (raw : List ℕ)
      → parse_komms_payload C raw ≡ ok ev
      → (ev.v ≡ 0 → ev.enc_scheme ≡ some (if ev.enc then 1 else 0))
      → Writes C
      → Fits C ev
      → C.from_reader (C.into_writer (event_value C ev)) ≡ ok (event_value C ev)
      → (again : List ℕ) × (encode_komms_payload C ev ≡ ok again)
        × (parse_komms_payload C again ≡ ok ev)
  parse_komms_payload-reencodes raw e scheme w fits read =
      let a = parse_komms_payload_inv C raw ev e in
      let r = read_payload_inv C raw a.cbor ev a.read_lem in
      let enc = IsEncodable-IsParsed (parse_cbor_map-IsParsed C a.cbor ev r.parsed) scheme in
      let again = komms_payload_prefix ++ C.into_writer (event_value C ev) in
      let written = encode_komms_payload_valid a.valid_lem in
      (again, written, parse_komms_payload-encode_komms_payload C w ev enc fits read again written)
