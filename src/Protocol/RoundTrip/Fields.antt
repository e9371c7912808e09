-- ===== src/Protocol/RoundTrip/Fields.antt =====
-- The whole parser on the whole map that the encoder builds.
use komms_cli.Base.{
  ℕ, List, [], ◌++◌, some, ok, ◌≡◌, sym, arith, if◌then◌else◌, ◌==◌, Bool-cases, inl, inr, >>-eq-ok,
}
use komms_cli.Protocol.RoundTrip.WellTyped.{IsWellTyped, written_scheme}
use komms_cli.Protocol.EventType.{as_u8, from_u8}
use komms_cli.Protocol.Event.{ParsedKommsEvent}
use komms_cli.Protocol.FieldMap.{FieldMap, Ascends, Below, Above-Ascends, split_from-Above}
use komms_cli.Protocol.Ciborium.{Ciborium}
use komms_cli.Protocol.Parse.Stages.{
  parse_fields, parse_extension, reject_rest, synthesise_scheme, parse_cbor_map,
}
use komms_cli.Protocol.Encode.{
  pushed, v0_slots, v1_slots, v1_1_slots, role_slots, event_fields, event_value, keyed,
  encode_cbor_map, recheck_ref,
}
use komms_cli.Protocol.Validate.Defs.{validate_event}
use komms_cli.Protocol.RoundTrip.Slots.{collect-keyed}
use komms_cli.Protocol.RoundTrip.Pushed.{Ascends-pushed, Below-pushed}
use komms_cli.Protocol.RoundTrip.Stages.{
  parse_envelope-pushed, parse_v0_core-pushed, parse_v1_core-pushed, parse_v1_1_core-pushed,
  parse_roles-pushed,
}

-- What an event must satisfy for the parser to give it back: its Rust types, an event type that is not a
-- `Reserved` of an enumerated discriminant, the `enc_scheme` that the parser synthesises for v0, and
-- extension fields that form a map over keys 33 to 255.
pub record IsEncodable {Value : Type 0} (ev : ParsedKommsEvent Value) : Type 0 where
  pub typed : IsWellTyped ev
  pub type_lem : from_u8 (as_u8 ev.t) ≡ ev.t
  pub v0_scheme : ev.v ≡ 0 → ev.enc_scheme ≡ some (if ev.enc then 1 else 0)
  pub extension_ascends : Ascends 33 ev.extension_fields
  pub extension_u8 : Below 256 ev.extension_fields

scheme_lem :
    {Value : Type 0} (ev : ParsedKommsEvent Value)
    → (ev.v ≡ 0 → ev.enc_scheme ≡ some (if ev.enc then 1 else 0))
    → synthesise_scheme ev.v ev.enc (written_scheme ev) ≡ ev.enc_scheme
unfolding synthesise_scheme
scheme_lem ev h = elim (Bool-cases (ev.v == 0)) [
  | inl e ↦ rw e (sym (h (ground arith)))
  | inr e ↦ rw e
]

module _ (C : Ciborium) (ev : ParsedKommsEvent C.Value) (enc : IsEncodable ev) where
  open C use {Value}

  roles : FieldMap Value
  roles = pushed (role_slots C ev) ++ ev.extension_fields

  v1_1_fields : FieldMap Value
  v1_1_fields = pushed (v1_1_slots C ev) ++ roles

  v1_fields : FieldMap Value
  v1_fields = pushed (v1_slots C ev) ++ v1_1_fields

  roles-Ascends : Ascends 31 roles
  unfolding roles role_slots
  roles-Ascends = Ascends-pushed 31 33 (role_slots C ev) _ (omega arith) enc.extension_ascends

  v1_1_fields-Ascends : Ascends 21 v1_1_fields
  unfolding v1_1_fields v1_1_slots
  v1_1_fields-Ascends = Ascends-pushed 21 31 (v1_1_slots C ev) _ (omega arith) roles-Ascends

  v1_fields-Ascends : Ascends 12 v1_fields
  unfolding v1_fields v1_slots
  v1_fields-Ascends = Ascends-pushed 12 21 (v1_slots C ev) _ (omega arith) v1_1_fields-Ascends

  pub event_fields-Ascends : Ascends 0 (event_fields C ev)
  unfolding event_fields v0_slots v1_fields v1_1_fields roles
  event_fields-Ascends = Ascends-pushed 0 12 (v0_slots C ev) _ (omega arith) v1_fields-Ascends

  pub event_fields-Below : Below 256 (event_fields C ev)
  unfolding event_fields v0_slots v1_slots v1_1_slots role_slots
  event_fields-Below = Below-pushed 0 12 256 (v0_slots C ev) _ (omega arith) (omega arith) (
      Below-pushed 12 21 256 (v1_slots C ev) _ (omega arith) (omega arith) (
        Below-pushed 21 31 256 (v1_1_slots C ev) _ (omega arith) (omega arith) (
          Below-pushed 31 33 256 (role_slots C ev) _ (omega arith) (omega arith) enc.extension_u8)))

  parse_extension-fields :
      (base : ParsedKommsEvent Value)
      → parse_extension C base ev.extension_fields
        ≡ ok (record base { extension_fields = ev.extension_fields })
  unfolding parse_extension reject_rest
  parse_extension-fields base = rw (
      split_from-Above 33 32 ev.extension_fields (omega arith)
        (Above-Ascends 32 ev.extension_fields enc.extension_ascends))

  pub parse_fields-event_fields : parse_fields C (event_fields C ev) ≡ ok ev
  unfolding parse_fields event_fields v1_fields v1_1_fields roles
  parse_fields-event_fields = rw (
    parse_envelope-pushed C ev v1_fields enc.typed (Above-Ascends 11 v1_fields v1_fields-Ascends)
        enc.type_lem,
    parse_v0_core-pushed C _ ev v1_fields enc.typed (Above-Ascends 11 v1_fields v1_fields-Ascends),
    parse_v1_core-pushed C _ ev v1_1_fields enc.typed
        (Above-Ascends 20 v1_1_fields v1_1_fields-Ascends),
    parse_v1_1_core-pushed C _ ev roles enc.typed (Above-Ascends 30 roles roles-Ascends),
    parse_roles-pushed C _ ev ev.extension_fields enc.typed
        (Above-Ascends 32 ev.extension_fields enc.extension_ascends),
    scheme_lem ev enc.v0_scheme,
    parse_extension-fields _,
  )

  pub parse_cbor_map-event_value :
      (cbor : List ℕ) → C.from_reader cbor ≡ ok (event_value C ev) → parse_cbor_map C cbor ≡ ok ev
  unfolding parse_cbor_map event_value
  parse_cbor_map-event_value cbor read = ground (
    arith,
    read,
    C.as_map-dict (keyed C (event_fields C ev)),
    collect-keyed C 0 (event_fields C ev) [] tt event_fields-Ascends event_fields-Below,
    parse_fields-event_fields,
  )

-- A successful encoding is the written map of an event that passes validation.
pub encode_cbor_map_inv :
    (C : Ciborium) (ev : ParsedKommsEvent C.Value) (cbor : List ℕ)
    → encode_cbor_map C ev ≡ ok cbor
    → (validate_event ev ≡ ok tt) × (cbor ≡ C.into_writer (event_value C ev))
unfolding encode_cbor_map
encode_cbor_map_inv C ev cbor e =
    let (valid, e₁) = >>-eq-ok (validate_event ev) e in
    let (ref_ok, e₂) = >>-eq-ok (recheck_ref ev.ref_bytes) e₁ in (valid, cc e₂)

-- The CBOR map that the encoder writes for an event parses back to the event, if ciborium reads back the
-- value that it wrote.
pub parse_cbor_map-encode_cbor_map :
    (C : Ciborium) (ev : ParsedKommsEvent C.Value) (cbor : List ℕ)
    → IsEncodable ev
    → C.from_reader (C.into_writer (event_value C ev)) ≡ ok (event_value C ev)
    → encode_cbor_map C ev ≡ ok cbor
    → parse_cbor_map C cbor ≡ ok ev
parse_cbor_map-encode_cbor_map C ev cbor enc read e =
    let (valid, ec) = encode_cbor_map_inv C ev cbor e in
    parse_cbor_map-event_value C ev enc cbor (rw ec read)
