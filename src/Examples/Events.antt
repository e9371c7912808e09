-- ===== src/Examples/Events.antt =====
-- Valid events of several types, and the signatures of two of them.
use komms_cli.Protocol.Ids.{ref_from_cid_str}
use komms_cli.Base.{
  [], ◌∷◌, arith, if◌then◌else◌, ℕ, List, true, false, not, Option, none, some, ok, ◌≡◌, ◌≢◌, ◌≤◌,
  refl, length, ◌==◌, is_some, is_utf8,
}
use komms_cli.Protocol.EventType.{device_register, role_assign, sealed_event, as_u8}
use komms_cli.Protocol.Event.{ParsedKommsEvent}
use komms_cli.Protocol.Parse.Pop.{default_event}
use komms_cli.Protocol.Encode.{event_value, encode_cbor_map, signing_payload_cbor, recheck_ref}
use komms_cli.Protocol.Validate.Defs.{validate_event}
use komms_cli.Protocol.Validate.Guards.{
  check_envelope, check_fields, check_ref, check_mime, check_reaction_key, validate_ref,
  check_v1_if, check_v1, check_scheme, check_sealed_sender, check_group, group_encrypted,
  has_enc_counterpart, validate_role_byte, validate_target_bytes,
}
use komms_cli.Protocol.Validate.ByType.{
  check_type, check_sealed_event, check_role_assign, has_sid, plaintext_enc_misuse,
}
use komms_cli.Protocol.Validate.Laws.{
  is_live_scheme, validate_event-v1, validate_event-is_sealed, validate_event-role_assign,
}
use komms_cli.Protocol.Verify.{Ed25519, verify_event}
use komms_cli.Protocol.Verify.Laws.{verify_event-needs_sig}
use komms_cli.Protocol.Verify.Injective.{IsSignable, signed_part, signing_payload_cbor-injective}
use komms_cli.Examples.Cbor.{codec, CborValue, write}
use komms_cli.Examples.Payload.{
  unsigned_message, valid_unsigned, unsigned-IsEncodable, read-unsigned_message, message, repeat,
  valid_message,
}

validate_event-v1_example :
    (s : ℕ) × (message.enc_scheme ≡ some s)
    × (is_live_scheme s ≡ true)
    × (message.enc ≡ not (s == 0))
    × (is_some message.ts ≡ true)
    × (is_some message.n ≡ true)
validate_event-v1_example = validate_event-v1 message (omega arith) valid_message

abbrev sealed : ParsedKommsEvent CborValue
sealed = record default_event {
  v = 1;
  t = sealed_event;
  enc = true;
  ts = some 1700000000;
  n = some 6;
  enc_scheme = some 4;
  match_tag = some (repeat 16 1);
  key_epoch = some 2;
  enc_t = some (repeat 40 3);
}

valid_sealed : validate_event sealed ≡ ok tt
unfolding validate_event check_envelope check_fields check_ref check_mime check_reaction_key
    check_v1_if check_v1 check_scheme check_sealed_sender check_group group_encrypted
    has_enc_counterpart check_type check_sealed_event as_u8
valid_sealed = refl

validate_event-is_sealed_example : (is_some sealed.sid ≡ false) × (is_some sealed.cid ≡ false)
validate_event-is_sealed_example = validate_event-is_sealed sealed refl valid_sealed

abbrev assignment : ParsedKommsEvent CborValue
assignment = record default_event {
  t = role_assign;
  sid = some (repeat 32 4);
  role = some 3;
  target = some (repeat 33 5);
}

valid_assignment : validate_event assignment ≡ ok tt
unfolding validate_event check_envelope check_fields check_ref check_mime check_reaction_key
    check_v1_if check_v1 check_scheme check_sealed_sender check_group group_encrypted check_type
    check_role_assign has_sid plaintext_enc_misuse validate_role_byte validate_target_bytes as_u8
valid_assignment = refl

validate_event-role_assign_example :
    (target : List ℕ) × (role : ℕ) × (assignment.target ≡ some target)
    × (2 ≤ length target)
    × (assignment.role ≡ some role)
    × (role ≤ 4)
validate_event-role_assign_example = validate_event-role_assign assignment refl valid_assignment

-- Keys are 32 bytes, and a signature is good if it is as long as the code's array.
abbrev toy : Ed25519
toy = record {
  VerifyingKey = List ℕ;
  from_bytes = λ key. if length key == 32 then some key else none;
  verify_strict = λ key text sig. length sig == 64;
}

abbrev registration : ParsedKommsEvent CborValue
registration = record default_event {
  t = device_register;
  device_pk = some (repeat 32 2);
  sig = some (repeat 64 9);
  sig_scheme = some 0;
}

verify_event-needs_sig_example : verify_event codec toy registration (repeat 32 2) ≢ ok tt
verify_event-needs_sig_example = verify_event-needs_sig codec toy registration (repeat 32 2) refl

abbrev resigned : ParsedKommsEvent CborValue
resigned = record message { sig = some (repeat 64 1) }

payload :
    (sig : Option (List ℕ))
    → signing_payload_cbor codec (record message { sig = sig })
      ≡ ok (write (event_value codec unsigned_message))
unfolding signing_payload_cbor encode_cbor_map recheck_ref validate_ref is_utf8
payload sig = rw valid_unsigned refl

unsigned-IsSignable : IsSignable unsigned_message
unsigned-IsSignable = record {
  typed = unsigned-IsEncodable.typed;
  type_lem = unsigned-IsEncodable.type_lem;
  extension_ascends = unsigned-IsEncodable.extension_ascends;
  extension_u8 = unsigned-IsEncodable.extension_u8;
}

signing_payload_cbor-injective_example : signed_part message ≡ signed_part resigned
signing_payload_cbor-injective_example =
    signing_payload_cbor-injective codec message resigned
      (write (event_value codec unsigned_message)) unsigned-IsSignable unsigned-IsSignable
      read-unsigned_message read-unsigned_message (payload (some (repeat 64 9)))
      (payload (some (repeat 64 1)))

abbrev cid_bytes : List ℕ
cid_bytes = 98 ∷ 97 ∷ 102 ∷ []

cid_bytes_utf8 : is_utf8 cid_bytes ≡ true
unfolding is_utf8
cid_bytes_utf8 = refl

built_ref : ref_from_cid_str cid_bytes ≡ ok (1 ∷ cid_bytes)
unfolding ref_from_cid_str
built_ref = refl
