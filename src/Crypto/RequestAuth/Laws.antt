-- ===== src/Crypto/RequestAuth/Laws.antt =====
-- When a request is accepted, and that a signed request is.
use komms_cli.Base.{
  ℕ, ◌+◌, ◌%◌, ◌^◌, ◌<◌, ◌≡◌, ◌↔◌, refl, subst, List, true, not, Option, some, ok, >>=-eq-ok,
  >>-eq-ok, ok_or, guard, ◌==◌, length, ℤ, pos, trim, trim-IsVisible, IsVisible, bytes_eq,
  bytes_eq_refl, bytes_eq_sound, parse_i64, parse_i64-IsI64, of_bits, Near, IsI64,
  wrapping_sub-Near, Near-wrapping_sub, All, IsByte, arith,
}
use komms_cli.Hex.{FasterHex, IsHexDigit-IsVisible}
use komms_cli.Crypto.RequestAuth.{canonical_input, sign}
use komms_cli.Crypto.RequestAuth.Verify.{
  Headers, check_mac, check_drift, verify, missing_caller, empty_caller, missing_timestamp,
  missing_signature, malformed_timestamp, malformed_signature, unknown_caller, hmac_mismatch,
}

module _ (H : FasterHex) (hmac : List ℕ → List ℕ → List ℕ) (secrets : List ℕ → Option (List ℕ))
    (method path body : List ℕ) (skew_secs now : ℕ) where
  open H use {hex_decode, hex_string}

  -- The HMAC that a request must carry.
  abbrev pub mac_of : List ℕ → List ℕ → List ℕ → List ℕ
  mac_of secret caller ts_str = hmac secret (canonical_input caller ts_str method path body)

  -- The request names a known caller, is of about now, and carries the caller's HMAC.
  pub record IsAuthentic (headers : Headers) (caller : List ℕ) : Type 0 where
    pub header : List ℕ
    pub ts_str : List ℕ
    pub sig_hex : List ℕ
    pub ts : ℤ
    pub secret : List ℕ
    pub caller_lem : headers.caller_header ≡ some header
    pub trimmed : trim header ≡ caller
    pub named : 0 < length caller
    pub ts_lem : headers.ts_header ≡ some ts_str
    pub sig_lem : headers.sig_header ≡ some sig_hex
    pub parsed : parse_i64 ts_str ≡ some ts
    pub near : Near skew_secs now ts
    pub known : secrets caller ≡ some secret
    pub signed :
        hex_decode (length (mac_of secret caller ts_str)) (trim sig_hex)
        ≡ some (mac_of secret caller ts_str)

  clock_bits : now < 2 ^ 63 → of_bits (now % 2 ^ 64) ≡ pos now
  clock_bits h = ground arith

  check_drift-Near :
      (ts : ℤ)
      → IsI64 ts
      → now + skew_secs < 2 ^ 63
      → (check_drift H hmac secrets (some now) skew_secs ts ≡ ok tt) ↔ Near skew_secs now ts
  unfolding check_drift
  check_drift-Near ts h fits = (
    λ e.
        let e' = rw (clock_bits (omega arith)) at e in
        wrapping_sub-Near now skew_secs ts h fits (ground arith),
    λ near.
        let le = Near-wrapping_sub now skew_secs ts h fits near in
        rw (clock_bits (omega arith)) (ground arith),
  )

  check_mac_inv :
      (caller expected sig_hex c : List ℕ)
      → check_mac H hmac secrets caller expected sig_hex ≡ ok c
      → (hex_decode (length expected) (trim sig_hex) ≡ some expected) × (caller ≡ c)
  unfolding check_mac
  check_mac_inv caller expected sig_hex c e =
      let (actual, e₁, r₁) =
        >>=-eq-ok (ok_or (hex_decode (length expected) (trim sig_hex)) malformed_signature) _ e in
      let (e₂, r₂) = >>-eq-ok (guard (bytes_eq expected actual) hmac_mismatch) r₁ in
      let same : expected ≡ actual = bytes_eq_sound expected actual (ground arith) in
      (ground (arith, same), cc r₂)

  verify_sound :
      (headers : Headers) (caller : List ℕ)
      → now + skew_secs < 2 ^ 63
      → verify H hmac secrets method path body headers skew_secs (some now) ≡ ok caller
      → IsAuthentic headers caller
  unfolding verify
  verify_sound headers caller fits e =
      let (header, e₁, r₁) = >>=-eq-ok (ok_or headers.caller_header missing_caller) _ e in
      let (e₂, r₂) = >>-eq-ok (guard (not (length (trim header) == 0)) empty_caller) r₁ in
      let (ts_str, e₃, r₃) = >>=-eq-ok (ok_or headers.ts_header missing_timestamp) _ r₂ in
      let (sig_hex, e₄, r₄) = >>=-eq-ok (ok_or headers.sig_header missing_signature) _ r₃ in
      let (ts, e₅, r₅) = >>=-eq-ok (ok_or (parse_i64 ts_str) malformed_timestamp) _ r₄ in
      let (e₆, r₆) = >>-eq-ok (check_drift H hmac secrets (some now) skew_secs ts) r₅ in
      let (secret, e₇, r₇) = >>=-eq-ok (ok_or (secrets (trim header)) unknown_caller) _ r₆ in
      let (mac, same) =
        check_mac_inv (trim header)
          (hmac secret (canonical_input (trim header) ts_str method path body)) sig_hex caller r₇ in
      let parsed : parse_i64 ts_str ≡ some ts = ground arith in
      record {
        header = header;
        ts_str = ts_str;
        sig_hex = sig_hex;
        ts = ts;
        secret = secret;
        caller_lem = ground arith;
        trimmed = same;
        named = subst (λ (c : List ℕ). 0 < length c) same (ground arith);
        ts_lem = ground arith;
        sig_lem = ground arith;
        parsed = parsed;
        near = (check_drift-Near ts (parse_i64-IsI64 ts_str ts parsed) fits).0 e₆;
        known = subst (λ c. secrets c ≡ some secret) same (ground arith);
        signed =
            subst
              (λ c.
                hex_decode (length (mac_of secret c ts_str)) (trim sig_hex)
                ≡ some (mac_of secret c ts_str))
              same mac;
      }

  verify_complete :
      (headers : Headers) (caller : List ℕ)
      → now + skew_secs < 2 ^ 63
      → IsAuthentic headers caller
      → verify H hmac secrets method path body headers skew_secs (some now) ≡ ok caller
  unfolding verify check_mac
  verify_complete headers caller fits a =
      let drift = (check_drift-Near a.ts (parse_i64-IsI64 a.ts_str a.ts a.parsed) fits).1 a.near in
      let some_name : not (length caller == 0) ≡ true = ground (arith, a.named) in
      rw
        (
          a.caller_lem,
          a.trimmed,
          some_name,
          a.ts_lem,
          a.sig_lem,
          a.parsed,
          drift,
          a.known,
          a.signed,
          bytes_eq_refl (mac_of a.secret caller a.ts_str),
        )
        refl

  -- A request is accepted as a caller's exactly when its caller header names that caller, who has a secret;
  -- its timestamp is an i64 at most `skew_secs` away from the clock, on either side; and its signature
  -- decodes to the HMAC, under that secret, of the request with the timestamp as it was sent. The clock
  -- and the skew together are below 2^63.
  pub verify_iff :
      (headers : Headers) (caller : List ℕ)
      → now + skew_secs < 2 ^ 63
      → (verify H hmac secrets method path body headers skew_secs (some now) ≡ ok caller)
        ↔ IsAuthentic headers caller
  verify_iff headers caller fits =
      (verify_sound headers caller fits, verify_complete headers caller fits)

  -- A request that is signed with the caller's secret is accepted, if the caller's name is visible ASCII
  -- and not empty, the timestamp reads as an i64 near the clock, the HMAC is 32 bytes, and the clock and the
  -- skew together are below 2^63.
  pub verify-sign :
      (caller ts_str secret : List ℕ) (ts : ℤ)
      → now + skew_secs < 2 ^ 63
      → secrets caller ≡ some secret
      → All IsVisible caller
      → 0 < length caller
      → parse_i64 ts_str ≡ some ts
      → Near skew_secs now ts
      → length (mac_of secret caller ts_str) ≡ 32
      → All IsByte (mac_of secret caller ts_str)
      → verify H hmac secrets method path body
          (record {
            caller_header = some caller;
            ts_header = some ts_str;
            sig_header = some (sign hmac hex_string secret caller ts_str method path body);
          })
          skew_secs
          (some now)
        ≡ ok caller
  unfolding sign
  verify-sign caller ts_str secret ts fits known visible named parsed near size bytes =
      let mac = mac_of secret caller ts_str in
      let plain : trim (hex_string mac) ≡ hex_string mac =
        trim-IsVisible (hex_string mac) (IsHexDigit-IsVisible _ (H.hex_string-IsHexDigit mac)) in
      verify_complete _ caller fits (record {
        header = caller;
        ts_str = ts_str;
        sig_hex = hex_string mac;
        ts = ts;
        secret = secret;
        caller_lem = refl;
        trimmed = trim-IsVisible caller visible;
        named = named;
        ts_lem = refl;
        sig_lem = refl;
        parsed = parsed;
        near = near;
        known = known;
        signed = rw plain (H.hex_decode-hex_string mac (omega (arith, size)) bytes);
      })
