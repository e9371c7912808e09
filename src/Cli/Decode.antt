-- ===== src/Cli/Decode.antt =====
-- src/lib.rs: `load_input_bytes` and `decode_payload`.
pub mod Laws
use komms_cli.Base.{
  ℕ, List, [], ◌∷◌, String, Bool, true, false, Option, none, some, Result, ok, err, ◌>>=◌, ◌>>◌,
  map_err, ok_or, guard, if◌then◌else◌, ◌==◌, length, trim, is_utf8,
}
use komms_cli.Hex.{FasterHex}
use komms_cli.Protocol.EventType.{EventType}
use komms_cli.Protocol.Event.{ParsedKommsEvent, ParseError, ValidationError}
use komms_cli.Protocol.Ciborium.{Ciborium}
use komms_cli.Protocol.Validate.Defs.{validate_event}
use komms_cli.Protocol.Encode.{signing_payload_cbor}
use komms_cli.Protocol.Parse.Stages.{parse_cbor_map}
use komms_cli.Protocol.Payload.{KommsPayloadError, strip_komms_envelope, parse_komms_payload}
use komms_cli.Protocol.Verify.{Ed25519}
use komms_cli.Cli.Hexutil.{HexError, parse_hex_bytes, parse_hex32_pk}
use komms_cli.Cli.Output.{SerdeJson, event_to_json}

pub data DecodeError : Type 0 where
  not_utf8 read_failed needs_pubkey bad_pubkey no_sig not_verified : DecodeError
  hex : HexError → DecodeError
  payload : KommsPayloadError → DecodeError
  parse : ParseError → DecodeError
  cbor_debug : String → DecodeError
  encode : ValidationError → DecodeError

abbrev pub is_dash : List ℕ → Bool
is_dash (c ∷ []) = c == b'-'
is_dash _ = false

-- `raw.strip_prefix('@')`
abbrev pub at_path : List ℕ → Option (List ℕ)
at_path [] = none
at_path (c ∷ path) = if c == b'@' then some path else none

-- `stdin` is what standard input holds, `read_file` reads a file.
module _ (H : FasterHex) (stdin : List ℕ) (read_file : List ℕ → Option (List ℕ)) where
  unfoldable pub load_stdin : Result DecodeError (List ℕ)
  load_stdin = do guard (is_utf8 stdin) not_utf8; map_err hex (parse_hex_bytes H (trim stdin))

  unfoldable pub load_input_bytes : Option (List ℕ) → Result DecodeError (List ℕ)
  unfolding load_stdin
  load_input_bytes none = load_stdin
  load_input_bytes (some s) = if is_dash (trim s) then load_stdin else elim (at_path (trim s)) [
    | some path ↦ ok_or (read_file path) read_failed
    | none ↦ map_err hex (parse_hex_bytes H (trim s))
  ]

-- `unwrap_or(bytes)`
abbrev pub or_else : Option (List ℕ) → List ℕ → List ℕ
or_else none bytes = bytes
or_else (some cbor) bytes = cbor

-- `validate_event(&ev).err()`
abbrev pub failure : Result ValidationError (Unit {0}) → Option ValidationError
failure (ok u) = none
failure (err e) = some e

-- `debug_t` is the derived `Debug` of `EventType`, `debug_cbor` that of `ciborium::Value`, `display` the text
-- of a validation error.
module _ (S : SerdeJson) (H : FasterHex) (C : Ciborium) (E : Ed25519) (debug_t : EventType → List ℕ)
    (debug_cbor : C.Value → List ℕ) (display : ValidationError → List ℕ) where
  open S use {Json, boolean, string, set}
  open C use {Value, from_reader}

  -- The event, and what validation says of it.
  unfoldable pub decode_event :
      List ℕ → Bool → Result DecodeError (ParsedKommsEvent Value × Option ValidationError)
  decode_event bytes true = do ev ← map_err payload (parse_komms_payload C bytes); ok (ev, none)
  decode_event bytes false = do
    ev ← map_err parse (parse_cbor_map C (or_else (strip_komms_envelope bytes) bytes))
    ok (ev, failure (validate_event ev))

  unfoldable pub with_warning : Option ValidationError → Json → Json
  with_warning none j = j
  with_warning (some e) j = set j "validation_warning" (string (display e))

  unfoldable pub with_cbor_debug : List ℕ → Bool → Json → Result DecodeError Json
  with_cbor_debug bytes false j = ok j
  with_cbor_debug bytes true j = do
    v ← map_err cbor_debug (from_reader (or_else (strip_komms_envelope bytes) bytes))
    ok (set j "cbor_debug" (string (debug_cbor v)))

  -- `Signature::from_slice` takes any 64 bytes, which `sig` is.
  unfoldable pub with_sig :
      ParsedKommsEvent Value → Bool → Option (List ℕ) → Json → Result DecodeError Json
  with_sig ev false pk_hex j = ok j
  with_sig ev true pk_hex j = do
    pk_s ← ok_or pk_hex needs_pubkey
    pk ← map_err hex (parse_hex32_pk H pk_s)
    vk ← ok_or (E.from_bytes pk) bad_pubkey
    sig ← ok_or ev.sig no_sig
    msg ← map_err encode (signing_payload_cbor C ev)
    guard (E.verify_strict vk msg sig) not_verified
    ok (set j "sig_verified" (boolean true))

  unfoldable pub decode_payload :
      List ℕ → Bool → Bool → Bool → Option (List ℕ) → Result DecodeError Json
  decode_payload bytes strict pretty_cbor verify_sig pk_hex = do
    (ev, validation) ← decode_event bytes strict
    j ← with_cbor_debug bytes pretty_cbor (with_warning validation (event_to_json S H debug_t ev))
    with_sig ev verify_sig pk_hex j
