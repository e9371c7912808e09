-- ===== src/Protocol/RoundTrip/Payload.antt =====
-- `parse_komms_payload` after `encode_komms_payload`.
use komms_cli.Base.{
  ℕ, List, ◌++◌, false, some, ok, ◌≡◌, refl, arith, ltb, >>=-eq-ok, >>-eq-ok, guard, not,
}
use komms_cli.Canonical.Complete.{validate_canonical-IsCanonical}
use komms_cli.Protocol.Event.{
  ParsedKommsEvent, max_known_version, komms_payload_prefix, bad_version,
}
use komms_cli.Protocol.Validate.Defs.{validate_event}
use komms_cli.Protocol.Validate.Guards.{check_envelope}
use komms_cli.Protocol.Ciborium.{Ciborium, Writes}
use komms_cli.Protocol.Encode.{event_value, encode_cbor_map, encode_komms_payload}
use komms_cli.Protocol.Payload.{
  strip_komms_envelope, read_payload, parse_komms_payload, parse_komms_payload_with_future,
  classify, known,
}
use komms_cli.Protocol.RoundTrip.Fields.{
  IsEncodable, encode_cbor_map_inv, parse_cbor_map-event_value,
}
use komms_cli.Protocol.RoundTrip.Written.{Fits}
use komms_cli.Protocol.RoundTrip.CanonicalMap.{IsCanonical-event_value}

-- A validated event has a known version.
pub validate_event-version :
    {Value : Type 0} (ev : ParsedKommsEvent Value)
    → validate_event ev ≡ ok tt
    → ltb max_known_version ev.v ≡ false
unfolding validate_event check_envelope
validate_event-version ev e =
    let (envelope, e₁) = >>-eq-ok (check_envelope ev) e in version (>>-eq-ok _ envelope).0
  where
    version : guard (not (ltb 1 ev.v)) (bad_version ev.v) ≡ ok tt → ltb 1 ev.v ≡ false
    version h = ground arith

strip-prefix : (cbor : List ℕ) → strip_komms_envelope (komms_payload_prefix ++ cbor) ≡ some cbor
unfolding strip_komms_envelope
strip-prefix cbor = refl

pub encode_komms_payload_inv :
    (C : Ciborium) (ev : ParsedKommsEvent C.Value) (raw : List ℕ)
    → encode_komms_payload C ev ≡ ok raw
    → (validate_event ev ≡ ok tt) × (raw ≡ komms_payload_prefix ++ C.into_writer (event_value C ev))
unfolding encode_komms_payload
encode_komms_payload_inv C ev raw e =
    let (cbor, e₁, e₂) = >>=-eq-ok (encode_cbor_map C ev) _ e in
    let (valid, ec) = encode_cbor_map_inv C ev cbor e₁ in (valid, cc (e₂, ec))

module _ (C : Ciborium) (w : Writes C) (ev : ParsedKommsEvent C.Value) (enc : IsEncodable ev)
    (f : Fits C ev)
    (read : C.from_reader (C.into_writer (event_value C ev)) ≡ ok (event_value C ev)) where
  read_payload-event :
      read_payload C (komms_payload_prefix ++ C.into_writer (event_value C ev))
      ≡ ok (C.into_writer (event_value C ev), ev)
  unfolding read_payload
  read_payload-event = rw (
    strip-prefix (C.into_writer (event_value C ev)),
    validate_canonical-IsCanonical _ (IsCanonical-event_value C w ev enc f),
    parse_cbor_map-event_value C ev enc _ read,
  )

  -- A payload that the encoder writes for an event is parsed back to that event, if the event is
  -- encodable and its byte strings fit a CBOR length, the CBOR writer writes the smallest heads, and the
  -- reader reads back the value that was written.
  pub parse_komms_payload-encode_komms_payload :
      (raw : List ℕ) → encode_komms_payload C ev ≡ ok raw → parse_komms_payload C raw ≡ ok ev
  unfolding parse_komms_payload
  parse_komms_payload-encode_komms_payload raw e =
      let (valid, er) = encode_komms_payload_inv C ev raw e in
      rw (er, read_payload-event, validate_event-version ev valid, valid)

  -- The same through the tolerant entry point.
  pub parse_with_future-encode_komms_payload :
      (raw : List ℕ)
      → encode_komms_payload C ev ≡ ok raw
      → parse_komms_payload_with_future C raw ≡ ok (known ev)
  unfolding parse_komms_payload_with_future classify
  parse_with_future-encode_komms_payload raw e =
      let (valid, er) = encode_komms_payload_inv C ev raw e in
      rw (er, read_payload-event, validate_event-version ev valid, valid)
