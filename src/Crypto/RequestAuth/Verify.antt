-- ===== src/Crypto/RequestAuth/Verify.antt =====
-- crypto/src/request_auth.rs: `verify`.
use komms_cli.Base.{
  ℕ, ◌%◌, ◌^◌, List, not, Option, Result, ok, ◌>>=◌, ◌>>◌, ok_or, guard, ltb, ◌==◌, length, ℤ, trim,
  bytes_eq, parse_i64, of_bits, wrapping_sub, unsigned_abs,
}
use komms_cli.Hex.{FasterHex}
use komms_cli.Crypto.RequestAuth.{canonical_input}

pub data RequestAuthError : Type 0 where
  missing_caller missing_timestamp missing_signature : RequestAuthError
  malformed_timestamp malformed_signature clock_skew : RequestAuthError
  timestamp_drift : ℕ → ℕ → RequestAuthError
  empty_caller unknown_caller hmac_mismatch : RequestAuthError

-- The three headers; a text is the list of its UTF-8 bytes.
pub record Headers : Type 0 where
  pub caller_header : Option (List ℕ)
  pub ts_header : Option (List ℕ)
  pub sig_header : Option (List ℕ)

-- `hmac` is HMAC-SHA-256, `secrets` the map of the callers. `clock` is the seconds since the epoch, or
-- `none` for a clock before it. Subtraction wraps, as in a release build.
module _ (H : FasterHex) (hmac : List ℕ → List ℕ → List ℕ)
    (secrets : List ℕ → Option (List ℕ)) where
  open H use {hex_decode}

  -- The signed text of an accepted request, against the signature.
  unfoldable pub check_mac : List ℕ → List ℕ → List ℕ → Result RequestAuthError (List ℕ)
  check_mac caller expected sig_hex = do
    actual ← ok_or (hex_decode (length expected) (trim sig_hex)) malformed_signature
    guard (bytes_eq expected actual) hmac_mismatch
    ok caller

  -- The drift check, between parsing the timestamp and looking the caller up.
  unfoldable pub check_drift : Option ℕ → ℕ → ℤ → Result RequestAuthError (Unit {0})
  check_drift clock skew_secs ts = do
    now ← ok_or clock clock_skew
    let drift = unsigned_abs (wrapping_sub (of_bits (now % 2 ^ 64)) ts)
    guard (not (ltb skew_secs drift)) (timestamp_drift drift skew_secs)

  unfoldable pub verify :
      List ℕ → List ℕ → List ℕ → Headers → ℕ → Option ℕ → Result RequestAuthError (List ℕ)
  verify method path body headers skew_secs clock = do
    header ← ok_or headers.caller_header missing_caller
    guard (not (length (trim header) == 0)) empty_caller
    ts_str ← ok_or headers.ts_header missing_timestamp
    sig_hex ← ok_or headers.sig_header missing_signature
    ts ← ok_or (parse_i64 ts_str) malformed_timestamp
    check_drift clock skew_secs ts
    secret ← ok_or (secrets (trim header)) unknown_caller
    check_mac (trim header) (hmac secret (canonical_input (trim header) ts_str method path body))
        sig_hex
