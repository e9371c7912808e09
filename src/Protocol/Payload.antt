-- ===== src/Protocol/Payload.antt =====
-- protocol/src/lib.rs: `strip_komms_envelope`, `parse_komms_payload` and
-- `parse_komms_payload_with_future`.
pub mod Laws
use komms_cli.Base.{
  ℕ, List, ◌∷◌, Bool, true, false, ◌&&◌, Option, none, some, Result, ok, err, ◌>>=◌, ◌>>◌, map_err,
  ok_or, guard, not, if◌then◌else◌, ltb, ◌==◌,
}
use komms_cli.Canonical.Walk.{CanonicalError, validate_canonical}
use komms_cli.Protocol.Event.{
  ParsedKommsEvent, ParseError, ValidationError, max_known_version, opaque_event_type,
}
use komms_cli.Protocol.Validate.Defs.{validate_event}
use komms_cli.Protocol.Parse.Stages.{parse_cbor_map}
use komms_cli.Protocol.Ciborium.{Ciborium}

pub data KommsPayloadError : Type 0 where
  missing_prefix : KommsPayloadError
  canonical : CanonicalError → KommsPayloadError
  parse : ParseError → KommsPayloadError
  validation : ValidationError → KommsPayloadError
  unsupported_version : ℕ → KommsPayloadError

pub data ParsedPayload (Value : Type 0) : Type 0 where
  known : ParsedKommsEvent Value → ParsedPayload Value
  opaque : ParsedKommsEvent Value → List ℕ → ParsedPayload Value
  future : ℕ → List ℕ → ParsedPayload Value

-- `raw.strip_prefix(&KOMMS_PAYLOAD_PREFIX)`
unfoldable pub strip_komms_envelope : List ℕ → Option (List ℕ)
strip_komms_envelope (a ∷ b ∷ c ∷ d ∷ cbor) =
    if a == 0x4B && b == 0x4F && c == 0x4D && d == 0x4D then some cbor else none
strip_komms_envelope _ = none

-- `is_opaque` picks the arm of `Err(ValidationError::OpaqueEventType(_))`.
abbrev pub is_opaque : ValidationError → Bool
is_opaque (opaque_event_type t) = true
is_opaque _ = false

module _ (C : Ciborium) where
  open C use {Value}

  -- The steps that the two entry points share: the CBOR slice and the event in it.
  unfoldable pub read_payload : List ℕ → Result KommsPayloadError (List ℕ × ParsedKommsEvent Value)
  read_payload raw = do
    cbor ← ok_or (strip_komms_envelope raw) missing_prefix
    map_err canonical (validate_canonical cbor)
    ev ← map_err parse (parse_cbor_map C cbor)
    ok (cbor, ev)

  unfoldable pub parse_komms_payload : List ℕ → Result KommsPayloadError (ParsedKommsEvent Value)
  parse_komms_payload raw = do
    (cbor, ev) ← read_payload raw
    guard (not (ltb max_known_version ev.v)) (unsupported_version ev.v)
    map_err validation (validate_event ev)
    ok ev

  -- The match on the outcome of `validate_event`.
  unfoldable pub classify :
      List ℕ
      → ParsedKommsEvent Value
      → Result ValidationError (Unit {0})
      → Result KommsPayloadError (ParsedPayload Value)
  classify cbor ev (ok u) = ok (known ev)
  classify cbor ev (err e) = if is_opaque e then ok (opaque ev cbor) else err (validation e)

  unfoldable pub parse_komms_payload_with_future :
      List ℕ → Result KommsPayloadError (ParsedPayload Value)
  parse_komms_payload_with_future raw = do
    (cbor, ev) ← read_payload raw
    if ltb max_known_version ev.v
        then ok (future ev.v cbor)
        else classify cbor ev (validate_event ev)
