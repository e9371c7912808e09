-- ===== src/Examples/Parsed.antt =====
-- What the parser and the encoder do with the events of the other examples.
use komms_cli.Base.{ℕ, List, true, some, ok, ◌≡◌, refl}
use komms_cli.Protocol.EventType.{as_u8}
use komms_cli.Protocol.Event.{ParsedKommsEvent}
use komms_cli.Protocol.Encode.{encode_komms_payload, event_value, signing_payload_cbor}
use komms_cli.Protocol.Parse.Stages.{parse_cbor_map}
use komms_cli.Protocol.Payload.{parse_komms_payload}
use komms_cli.Protocol.Validate.Defs.{validate_event}
use komms_cli.Protocol.Validate.Guards.{
  check_envelope, check_fields, check_ref, check_mime, check_reaction_key, check_v1_if,
  check_sealed_sender, check_group, group_encrypted,
}
use komms_cli.Protocol.Validate.ByType.{check_type, check_member, plaintext_enc_misuse}
use komms_cli.Protocol.Verify.{Ed25519, verify_event}
use komms_cli.Protocol.Verify.Laws.{verify_event_iff, unsigned}
use komms_cli.Protocol.Verify.Scheme.{with_scheme, verify_event-with_scheme}
use komms_cli.Protocol.RoundTrip.Fields.{parse_cbor_map-encode_cbor_map}
use komms_cli.Protocol.Typed.Parsed.{IsParsed, parse_cbor_map-IsParsed}
use komms_cli.Protocol.Typed.Reencode.{encode_cbor_map_valid, parse_komms_payload-reencodes}
use komms_cli.Examples.Cbor.{codec, codec-Writes, CborValue, write}
use komms_cli.Examples.Payload.{
  message, raw_message, parsed_message, message-Fits, message-IsEncodable, read-message,
  valid_message, repeat,
}
use komms_cli.Examples.Post.{changed}

-- The version 0 join, signed.
abbrev signed : ParsedKommsEvent CborValue
signed = record changed { sig = some (repeat 64 9) }

abbrev lenient : Ed25519
lenient = record { VerifyingKey = List ℕ; from_bytes = λ k. some k; verify_strict = λ k m s. true }

parsed_map : parse_cbor_map codec (write (event_value codec message)) ≡ ok message
parsed_map =
    parse_cbor_map-encode_cbor_map codec message (write (event_value codec message))
      message-IsEncodable read-message (encode_cbor_map_valid codec message valid_message)

parse_cbor_map-IsParsed_example : IsParsed message
parse_cbor_map-IsParsed_example =
    parse_cbor_map-IsParsed codec (write (event_value codec message)) message parsed_map

parse_komms_payload-reencodes_example :
    (again : List ℕ) × (encode_komms_payload codec message ≡ ok again)
    × (parse_komms_payload codec again ≡ ok message)
parse_komms_payload-reencodes_example =
    parse_komms_payload-reencodes codec message raw_message parsed_message
      message-IsEncodable.v0_scheme codec-Writes message-Fits read-message

valid_with_scheme : validate_event (unsigned (with_scheme (some 1) signed)) ≡ ok tt
unfolding validate_event check_envelope check_fields check_ref check_mime check_reaction_key
    check_v1_if check_sealed_sender check_group group_encrypted check_type check_member as_u8
    plaintext_enc_misuse
valid_with_scheme = refl

valid_signed : validate_event (unsigned signed) ≡ ok tt
unfolding validate_event check_envelope check_fields check_ref check_mime check_reaction_key
    check_v1_if check_sealed_sender check_group group_encrypted check_type check_member as_u8
    plaintext_enc_misuse
valid_signed = refl

verified : verify_event codec lenient signed (repeat 32 2) ≡ ok tt
unfolding signing_payload_cbor
verified = (verify_event_iff codec lenient signed (repeat 32 2)).1 (
  repeat 64 9,
  write (event_value codec (unsigned signed)),
  repeat 32 2,
  refl,
  encode_cbor_map_valid codec (unsigned signed) valid_signed,
  refl,
  refl,
)

verify_event-with_scheme_example :
    verify_event codec lenient (with_scheme (some 1) signed) (repeat 32 2) ≡ ok tt
verify_event-with_scheme_example =
    verify_event-with_scheme codec signed (some 1) lenient (repeat 32 2) refl valid_with_scheme
      verified
