-- ===== src/Cli/Run/Signed.antt =====
-- src/lib.rs: what `--verify-sig` of `decode` and `read tx` vouches for.
use komms_cli.Base.{
  ℕ, List, Bool, true, Option, some, ok, ◌≡◌, sym, ◌∙◌, ap, subst, map_err, map_err-eq-ok, ok_or,
  ok_or-eq-ok, guard, >>=-eq-ok, >>-eq-ok, ok-injective,
}
use komms_cli.Protocol.Event.{ParsedKommsEvent, ValidationError}
use komms_cli.Protocol.Encode.{signing_payload_cbor}
use komms_cli.Protocol.Verify.{verify_event}
use komms_cli.Cli.Hexutil.{parse_hex32_pk}
use komms_cli.Cli.Output.{event_to_json}
use komms_cli.Cli.Commands.{Commands, DecodeArgs}
use komms_cli.Cli.Decode.{
  load_input_bytes, decode_event, with_warning, with_cbor_debug, with_sig, decode_payload,
  needs_pubkey, hex, bad_pubkey, no_sig, encode, not_verified,
}
use komms_cli.Cli.Decode.Laws.{with_sig-verify_event}
use komms_cli.Cli.Post.Commands.{Text}
use komms_cli.Cli.Run.{World, Json, decode_bytes, decoding, run}

module _ (W : World) where
  -- The event that is decoded verifies under the key that was given.
  pub record IsVerified (bytes : List ℕ) (strict : Bool) (pk_hex : Option Text) : Type 0 where
    pub ev : ParsedKommsEvent W.ciborium.Value
    pub validation : Option ValidationError
    pub pk_s : Text
    pub pk : List ℕ
    pub decoded :
        decode_event W.serde W.hex W.ciborium W.ed25519 W.debug_t W.debug_cbor W.display bytes
          strict
        ≡ ok (ev, validation)
    pub given_key : pk_hex ≡ some pk_s
    pub read_key : parse_hex32_pk W.hex pk_s ≡ ok pk
    pub verified : verify_event W.ciborium W.ed25519 ev pk ≡ ok tt

  with_sig_ok :
      (ev : ParsedKommsEvent W.ciborium.Value) (pk_hex : Option Text) (j r : Json W)
      → with_sig W.serde W.hex W.ciborium W.ed25519 W.debug_t W.debug_cbor W.display ev true pk_hex
          j
        ≡ ok r
      → (pk_s : Text) × (pk_hex ≡ some pk_s)
        × (r ≡ W.serde.set j "sig_verified" (W.serde.boolean true))
  unfolding with_sig
  with_sig_ok ev pk_hex j r e =
      let (pk_s, e₁, r₁) = >>=-eq-ok (ok_or pk_hex needs_pubkey) _ e in
      let (pk, e₂, r₂) = >>=-eq-ok (map_err hex (parse_hex32_pk W.hex pk_s)) _ r₁ in
      let (vk, e₃, r₃) = >>=-eq-ok (ok_or (W.ed25519.from_bytes pk) bad_pubkey) _ r₂ in
      let (sig, e₄, r₄) = >>=-eq-ok (ok_or ev.sig no_sig) _ r₃ in
      let (msg, e₅, r₅) = >>=-eq-ok (map_err encode (signing_payload_cbor W.ciborium ev)) _ r₄ in
      let (e₆, r₆) = >>-eq-ok (guard (W.ed25519.verify_strict vk msg sig) not_verified) r₅ in
      (pk_s, ok_or-eq-ok pk_hex needs_pubkey pk_s e₁, sym (ok-injective _ r r₆))

  with_sig-IsVerified :
      (bytes : List ℕ) (strict : Bool) (pk_hex : Option Text)
      (ev : ParsedKommsEvent W.ciborium.Value) (validation : Option ValidationError) (j r : Json W)
      → decode_event W.serde W.hex W.ciborium W.ed25519 W.debug_t W.debug_cbor W.display bytes
          strict
        ≡ ok (ev, validation)
      → with_sig W.serde W.hex W.ciborium W.ed25519 W.debug_t W.debug_cbor W.display ev true pk_hex
          j
        ≡ ok r
      → IsVerified bytes strict pk_hex
  with_sig-IsVerified bytes strict pk_hex ev validation j r d e =
      let (pk_s, given, same) = with_sig_ok ev pk_hex j r e in
      let checked : with_sig W.serde W.hex W.ciborium W.ed25519 W.debug_t W.debug_cbor W.display ev
            true (some pk_s) j
          ≡ ok (W.serde.set j "sig_verified" (W.serde.boolean true)) =
        subst
          (λ o.
            with_sig W.serde W.hex W.ciborium W.ed25519 W.debug_t W.debug_cbor W.display ev true o j
            ≡ ok (W.serde.set j "sig_verified" (W.serde.boolean true)))
          given (e ∙ ap ok same) in
      let (pk, read, verified) =
        (with_sig-verify_event W.serde W.hex W.ciborium W.ed25519 W.debug_t W.debug_cbor W.display
            ev pk_s j).0
          checked in
      record {
        ev = ev;
        validation = validation;
        pk_s = pk_s;
        pk = pk;
        decoded = d;
        given_key = given;
        read_key = read;
        verified = verified;
      }

  decode_bytes-IsVerified :
      (bytes : List ℕ) (strict pretty_cbor : Bool) (pk_hex : Option Text) (j : Json W)
      → decode_bytes W bytes strict pretty_cbor true pk_hex ≡ ok j
      → IsVerified bytes strict pk_hex
  unfolding decode_payload
  decode_bytes-IsVerified bytes strict pretty_cbor pk_hex j e =
      let r = map_err-eq-ok decoding _ j e in
      let ((ev, validation), d, r₁) =
        >>=-eq-ok
          (decode_event W.serde W.hex W.ciborium W.ed25519 W.debug_t W.debug_cbor W.display bytes
            strict)
          _ r in
      let (shown, e₂, r₂) =
        >>=-eq-ok
          (with_cbor_debug W.serde W.hex W.ciborium W.ed25519 W.debug_t W.debug_cbor W.display bytes
            pretty_cbor
            (with_warning W.serde W.hex W.ciborium W.ed25519 W.debug_t W.debug_cbor W.display
              validation (event_to_json W.serde W.hex W.debug_t ev)))
          _ r₁ in
      with_sig-IsVerified bytes strict pk_hex ev validation shown j d r₂

  -- When `decode --verify-sig` prints anything, it has loaded bytes whose decoded event carries a signature that
  -- `verify_event` accepts under the key that was given as hex.
  pub run-decode-IsVerified :
      (a : DecodeArgs) (text : Text)
      → a.verify_sig ≡ true
      → run W (Commands.decode a) ≡ ok text
      → (bytes : List ℕ) × (load_input_bytes W.hex W.stdin W.read_file a.input ≡ ok bytes)
        × IsVerified bytes a.strict a.ed25519_pubkey_hex
  unfolding run
  run-decode-IsVerified a text checks e =
      let (bytes, e₁, r₁) =
        >>=-eq-ok (map_err decoding (load_input_bytes W.hex W.stdin W.read_file a.input)) _ e in
      let (j, e₂, r₂) =
        >>=-eq-ok (decode_bytes W bytes a.strict a.pretty_cbor a.verify_sig a.ed25519_pubkey_hex) _
          r₁ in
      (
        bytes,
        map_err-eq-ok decoding _ bytes e₁,
        decode_bytes-IsVerified bytes a.strict a.pretty_cbor a.ed25519_pubkey_hex j (
            subst (λ b. decode_bytes W bytes a.strict a.pretty_cbor b a.ed25519_pubkey_hex ≡ ok j)
              checks e₂),
      )
