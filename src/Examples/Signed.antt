-- ===== src/Examples/Signed.antt =====
-- `decode --verify-sig` of the signed message.
use komms_cli.Base.{
  ℕ, List, [], ◌∷◌, true, false, some, ok, ◌≡◌, refl, arith, trim, skip_space, space_front,
  space_back,
}
use komms_cli.Protocol.Encode.{signing_payload_cbor}
use komms_cli.Protocol.Typed.Reencode.{encode_cbor_map_valid}
use komms_cli.Protocol.Verify.{verify_event}
use komms_cli.Cli.Hexutil.{parse_hex32, parse_hex32_pk, bare, strip_0x}
use komms_cli.Cli.Output.{event_to_json}
use komms_cli.Cli.Commands.{Commands, DecodeArgs}
use komms_cli.Cli.Decode.{
  load_input_bytes, decode_event, with_warning, with_cbor_debug, with_sig, decode_payload,
}
use komms_cli.Cli.Decode.Laws.{load_input_bytes-hex_string, with_sig-verify_event}
use komms_cli.Cli.Run.{run, print_json}
use komms_cli.Cli.Run.Signed.{IsVerified, run-decode-IsVerified}
use komms_cli.Examples.Cbor.{codec}
use komms_cli.Examples.Hex.{hexer, of_hex, value}
use komms_cli.Examples.Json.{json, boolean, JsonValue}
use komms_cli.Examples.Payload.{
  repeat, message, raw_message, parsed_message, unsigned_message, valid_unsigned,
  raw_message-IsByte,
}
use komms_cli.Examples.Read.{ed25519}
use komms_cli.Examples.Run.{world}

abbrev key_hex : List ℕ
key_hex = repeat 64 97

abbrev args : DecodeArgs
args = record {
  input = some (hexer.hex_string raw_message);
  strict = true;
  pretty = false;
  pretty_cbor = false;
  verify_sig = true;
  ed25519_pubkey_hex = some key_hex;
}

loaded : load_input_bytes hexer [] world.read_file args.input ≡ ok raw_message
loaded =
    load_input_bytes-hex_string hexer [] world.read_file raw_message (omega arith)
      raw_message-IsByte

key_lem : parse_hex32_pk hexer key_hex ≡ ok (repeat 32 170)
unfolding parse_hex32_pk parse_hex32 bare strip_0x trim skip_space space_front space_back of_hex
    value
key_lem = refl

verified : verify_event codec ed25519 message (repeat 32 170) ≡ ok tt
unfolding verify_event signing_payload_cbor
verified = rw (encode_cbor_map_valid codec unsigned_message valid_unsigned) refl

abbrev shown : JsonValue
shown = event_to_json json hexer (λ t. []) message

with_key :
    with_sig json hexer codec ed25519
      (λ t. [])
      (λ v. [])
      (λ e. [])
      message
      true
      (some key_hex)
      shown
    ≡ ok (json.set shown "sig_verified" (boolean true))
with_key =
    (with_sig-verify_event json hexer codec ed25519 (λ t. []) (λ v. []) (λ e. []) message key_hex
        shown).1
      (repeat 32 170, key_lem, verified)

ran : run world (Commands.decode args) ≡ ok (b'{' ∷ b'\n' ∷ [])
unfolding run decode_payload decode_event with_warning with_cbor_debug print_json event_to_json
ran = rw (loaded, parsed_message, with_key) refl

run-decode-IsVerified_example :
    (bytes : List ℕ) × (load_input_bytes hexer [] world.read_file args.input ≡ ok bytes)
    × IsVerified world bytes true (some key_hex)
run-decode-IsVerified_example = run-decode-IsVerified world args (b'{' ∷ b'\n' ∷ []) refl ran
