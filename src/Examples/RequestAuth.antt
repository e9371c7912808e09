-- ===== src/Examples/RequestAuth.antt =====
-- A signed request, with a toy HMAC.
use komms_cli.Base.{
  ℕ, ◌+◌, ◌%◌, ◌≡◌, ◌↔◌, refl, List, [], Option, none, some, ok, if◌then◌else◌, length, ascii,
  bytes_eq, pos, parse_i64, digits, unsigned_digits, All, IsByte, arith, all_bytes_sound,
}
use komms_cli.Crypto.RequestAuth.{canonical_input, sign}
use komms_cli.Crypto.RequestAuth.Verify.{Headers, verify}
use komms_cli.Crypto.RequestAuth.Laws.{IsAuthentic, verify_iff, verify-sign}
use komms_cli.Examples.Hex.{hexer}
use komms_cli.Examples.Payload.{repeat}

abbrev hmac : List ℕ → List ℕ → List ℕ
hmac key text = repeat 32 ((length key + length text) % 256)

abbrev alice : List ℕ
alice = ascii "alice"

abbrev secrets : List ℕ → Option (List ℕ)
secrets caller = if bytes_eq caller alice then some (ascii "key") else none

abbrev signed : Headers
signed = record {
  caller_header = some alice;
  ts_header = some (ascii "1000");
  sig_header =
      some (
        sign hmac hexer.hex_string (ascii "key") alice (ascii "1000") (ascii "GET") (ascii "/x")
          []);
}

verify_iff_example :
    (verify hexer hmac secrets (ascii "GET") (ascii "/x") [] signed 300 (some 1200) ≡ ok alice)
    ↔ IsAuthentic hexer hmac secrets (ascii "GET") (ascii "/x") [] 300 1200 signed alice
verify_iff_example =
    verify_iff hexer hmac secrets (ascii "GET") (ascii "/x") [] 300 1200 signed alice (omega arith)

alice_known : secrets alice ≡ some (ascii "key")
unfolding bytes_eq
alice_known = refl

timestamp : parse_i64 (ascii "1000") ≡ some (pos 1000)
unfolding parse_i64 unsigned_digits digits
timestamp = refl

mac_size :
    length (hmac (ascii "key") (canonical_input alice (ascii "1000") (ascii "GET") (ascii "/x") []))
    ≡ 32
mac_size = refl

mac-IsByte :
    All IsByte
      (hmac (ascii "key") (canonical_input alice (ascii "1000") (ascii "GET") (ascii "/x") []))
unfolding canonical_input
mac-IsByte =
    all_bytes_sound
      (hmac (ascii "key") (canonical_input alice (ascii "1000") (ascii "GET") (ascii "/x") [])) refl

verify-sign_example :
    verify hexer hmac secrets (ascii "GET") (ascii "/x") [] signed 300 (some 1200) ≡ ok alice
verify-sign_example =
    verify-sign hexer hmac secrets (ascii "GET") (ascii "/x") [] 300 1200 alice (ascii "1000")
      (ascii "key") (pos 1000) (omega arith) alice_known
      (
        (omega arith, omega arith),
        (
          (omega arith, omega arith),
          (
            (omega arith, omega arith),
            ((omega arith, omega arith), ((omega arith, omega arith), tt)),
          ),
        ),
      )
      (omega arith) timestamp (omega arith, omega arith) mac_size mac-IsByte
