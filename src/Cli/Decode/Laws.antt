-- ===== src/Cli/Decode/Laws.antt =====
-- src/lib.rs: what `decode_payload` says of a payload.
use komms_cli.Base.{
  ℕ, List, Bool, true, false, Option, none, some, ok, ◌≡◌, ◌↔◌, refl, map_err, map_err-eq-ok, ok_or,
  guard, >>=-eq-ok, >>-eq-ok, sym, subst, ◌++◌, arith, [], ◌∷◌, length, ◌<◌, trim, All, IsByte,
}
use komms_cli.Hex.{FasterHex, IsHexDigit}
use komms_cli.Protocol.EventType.{EventType}
use komms_cli.Protocol.Event.{ParsedKommsEvent, ValidationError, komms_payload_prefix}
use komms_cli.Protocol.Ciborium.{Ciborium}
use komms_cli.Protocol.Payload.Laws.{parse_komms_payload_inv, read_payload_inv}
use komms_cli.Protocol.Encode.{signing_payload_cbor}
use komms_cli.Protocol.Payload.{strip_komms_envelope, parse_komms_payload}
use komms_cli.Protocol.Verify.{Ed25519, verify_event, signature_missing, invalid_pubkey}
use komms_cli.Protocol.Verify
use komms_cli.Cli.Hexutil.{
  parse_hex32_pk, trim-hex_string, parse_hex_bytes, parse_hex_bytes-hex_string,
}
use komms_cli.Cli.Output.{SerdeJson}
use komms_cli.Cli.Decode.{
  is_dash, at_path, load_input_bytes, decode_event, with_sig, decode_payload, or_else, payload, hex,
  encode, bad_pubkey, no_sig, not_verified,
}

is_dash-digits : (s : List ℕ) → All IsHexDigit s → is_dash s ≡ false
is_dash-digits [] h = refl
is_dash-digits (a ∷ []) (ha, h) = ground arith
is_dash-digits (a ∷ b ∷ s) h = refl

at_path-digits : (s : List ℕ) → All IsHexDigit s → at_path s ≡ none
at_path-digits [] h = refl
at_path-digits (a ∷ s) (ha, h) = ground arith

-- A payload that is printed as hex is loaded as its bytes, whatever standard input and the files hold.
pub load_input_bytes-hex_string :
    (H : FasterHex) (stdin : List ℕ) (read_file : List ℕ → Option (List ℕ)) (b : List ℕ)
    → 0 < length b
    → All IsByte b
    → load_input_bytes H stdin read_file (some (H.hex_string b)) ≡ ok b
unfolding load_input_bytes
load_input_bytes-hex_string H stdin read_file b h hb =
    let same = sym (trim-hex_string H b) in
    let digits : All IsHexDigit (trim (H.hex_string b)) =
      subst (All IsHexDigit) same (H.hex_string-IsHexDigit b) in
    let read : parse_hex_bytes H (trim (H.hex_string b)) ≡ ok b =
      subst (λ s. parse_hex_bytes H s ≡ ok b) same (parse_hex_bytes-hex_string H b h hb).0 in
    rw (is_dash-digits _ digits, at_path-digits _ digits, read) refl

-- The CBOR behind a prefix.
or_else-strip_komms_envelope :
    (cbor : List ℕ)
    → or_else (strip_komms_envelope (komms_payload_prefix ++ cbor)) (komms_payload_prefix ++ cbor)
      ≡ cbor
unfolding strip_komms_envelope
or_else-strip_komms_envelope cbor = refl

module _ (S : SerdeJson) (H : FasterHex) (C : Ciborium) (E : Ed25519) (debug_t : EventType → List ℕ)
    (debug_cbor : C.Value → List ℕ) (display : ValidationError → List ℕ) where
  open S use {Json, boolean, set}

  decode_event-strict :
      (bytes : List ℕ) (ev : ParsedKommsEvent C.Value)
      → parse_komms_payload C bytes ≡ ok ev
      → decode_event S H C E debug_t debug_cbor display bytes false ≡ ok (ev, none)
  unfolding decode_event
  decode_event-strict bytes ev e =
      let a = parse_komms_payload_inv C bytes ev e in
      let r = read_payload_inv C bytes a.cbor ev a.read_lem in
      let behind : or_else (strip_komms_envelope bytes) bytes ≡ a.cbor =
        subst (λ x. or_else (strip_komms_envelope x) x ≡ a.cbor) (sym r.prefixed)
          (or_else-strip_komms_envelope a.cbor) in
      rw (behind, r.parsed, a.valid_lem) refl

  decode_event-true :
      (bytes : List ℕ) (p : ParsedKommsEvent C.Value × Option ValidationError)
      → decode_event S H C E debug_t debug_cbor display bytes true ≡ ok p
      → decode_event S H C E debug_t debug_cbor display bytes false ≡ ok p
  unfolding decode_event
  decode_event-true bytes p e =
      let (ev, e₁, r₁) = >>=-eq-ok (map_err payload (parse_komms_payload C bytes)) _ e in
      let same : (ev, none) ≡ p = cc r₁ in
      subst (λ q. decode_event S H C E debug_t debug_cbor display bytes false ≡ ok q) same
        (decode_event-strict bytes ev (map_err-eq-ok payload _ ev e₁))

  -- What `decode --strict` prints, `decode` prints too: no warning is added, and the other flags do the same.
  pub decode_payload-strict :
      (bytes : List ℕ) (pretty_cbor verify_sig : Bool) (pk_hex : Option (List ℕ)) (j : Json)
      → decode_payload S H C E debug_t debug_cbor display bytes true pretty_cbor verify_sig pk_hex
        ≡ ok j
      → decode_payload S H C E debug_t debug_cbor display bytes false pretty_cbor verify_sig pk_hex
        ≡ ok j
  unfolding decode_payload
  decode_payload-strict bytes pretty_cbor verify_sig pk_hex j e =
      let (p, e₁, r₁) =
        >>=-eq-ok (decode_event S H C E debug_t debug_cbor display bytes true) _ e in
      rw (decode_event-true bytes p e₁) r₁

  -- The check of a signature on the command line is the protocol's `verify_event`: it succeeds exactly when the
  -- key that is given is 32 bytes of hex for which `verify_event` accepts the event.
  pub with_sig-verify_event :
      (ev : ParsedKommsEvent C.Value) (pk_s : List ℕ) (j : Json)
      → (with_sig S H C E debug_t debug_cbor display ev true (some pk_s) j
          ≡ ok (set j "sig_verified" (boolean true)))
        ↔ ((pk : List ℕ) × (parse_hex32_pk H pk_s ≡ ok pk) × (verify_event C E ev pk ≡ ok tt))
  unfolding with_sig verify_event
  with_sig-verify_event ev pk_s j = (
    λ e.
        let (pk, e₁, r₁) = >>=-eq-ok (map_err hex (parse_hex32_pk H pk_s)) _ e in
        let (vk, e₂, r₂) = >>=-eq-ok (ok_or (E.from_bytes pk) bad_pubkey) _ r₁ in
        let (sig, e₃, r₃) = >>=-eq-ok (ok_or ev.sig no_sig) _ r₂ in
        let (msg, e₄, r₄) = >>=-eq-ok (map_err encode (signing_payload_cbor C ev)) _ r₃ in
        let (e₅, r₅) = >>-eq-ok (guard (E.verify_strict vk msg sig) not_verified) r₄ in
        (pk, map_err-eq-ok hex _ pk e₁, ground (arith, e₂, e₃, e₅, map_err-eq-ok encode _ msg e₄)),
    λ (pk, e, v).
        let (sig, e₁, r₁) = >>=-eq-ok (ok_or ev.sig signature_missing) _ v in
        let (msg, e₂, r₂) = >>=-eq-ok (map_err Verify.encode (signing_payload_cbor C ev)) _ r₁ in
        let (key, e₃, r₃) = >>=-eq-ok (ok_or (E.from_bytes pk) invalid_pubkey) _ r₂ in
        ground (arith, e, e₁, e₃, r₃, map_err-eq-ok Verify.encode _ msg e₂),
  )
