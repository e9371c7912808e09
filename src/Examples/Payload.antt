-- ===== src/Examples/Payload.antt =====
-- One event of version 1, and the parsers and the encoder on it.
use komms_cli.Base.{
  all_bytes_sound, ◌≤◌, ◌↔◌, All, IsByte, ℕ, zero, suc, List, [], ◌∷◌, ◌++◌, true, none, some, ok,
  err, ◌≡◌, refl, arith,
}
use komms_cli.Protocol.RoundTrip.WellTyped.{IsWellTyped}
use komms_cli.Protocol.EventType.{dm_message_post, as_u8, from_u8}
use komms_cli.Protocol.Event.{ParsedKommsEvent, komms_payload_prefix}
use komms_cli.Canonical.Grammar.{IsCanonical}
use komms_cli.Protocol.RoundTrip.CanonicalMap.{IsCanonical-event_value}
use komms_cli.Protocol.Parse.Stages.{
  synthesise_scheme, clamp_role, parse_envelope, parse_v0_core, parse_v1_core, parse_v1_1_core,
  reject_rest, parse_roles, parse_extension, parse_cbor_map, parse_fields, collect,
}
use komms_cli.Protocol.Payload.{
  read_payload, strip_komms_envelope, parse_komms_payload, parse_komms_payload_with_future, known,
  future, unsupported_version,
}
use komms_cli.Protocol.Payload.Laws.{
  parse_komms_payload_sound, parse_komms_payload-known, parse_komms_payload-future,
}
use komms_cli.Protocol.Parse.Pop.{
  default_event, event_type, key_to_u8, to_uint, to_sized, to_bytes, to_text, to_sig, pop_uint_opt,
  pop_uint, pop_bytes32, pop_bytes16, pop_bytes, pop_text_opt, pop_sig, to_bool, pop_enc,
}
use komms_cli.Protocol.FieldMap.{insert, remove, split_from}
use komms_cli.Protocol.Encode.{
  event_value, event_fields, pushed, v0_slots, v1_slots, v1_1_slots, role_slots, encode_cbor_map,
  encode_komms_payload, recheck_ref,
}
use komms_cli.Protocol.Validate.Defs.{validate_event}
use komms_cli.Examples.Cbor.{codec, codec-Writes, CborValue, read, write, integer}
use komms_cli.Base.{to_be_bytes, to_le_bytes, from_be_bytes, is_utf8}
use komms_cli.Canonical.Grammar.{number, head, arg_code, arg_bytes}
use komms_cli.Canonical.Walk.{
  validate_canonical, walk_item, walk_level, walk_major, walk_map, walk_array, walk_simple,
  check_order, read_uint_key, check_arg, finish, skip_bytes, read_u8, read_argument, read_be,
  shortest,
}
use komms_cli.Examples.Cbor.{read_value, read_major, read_pairs}
use komms_cli.Protocol.Validate.Guards.{
  check_envelope, check_fields, check_ref, check_mime, check_reaction_key, validate_ref,
  ref_type_agrees, check_v1_if, check_v1, check_scheme, check_sealed_sender, check_group,
  group_encrypted,
}
use komms_cli.Protocol.Validate.ByType.{check_type, check_dm_message_post}
use komms_cli.Protocol.RoundTrip.Fields.{IsEncodable}
use komms_cli.Protocol.RoundTrip.Written.{Fits}
use komms_cli.Protocol.RoundTrip.Payload.{parse_komms_payload-encode_komms_payload}

abbrev pub repeat : ℕ → ℕ → List ℕ
repeat zero b = []
repeat (suc n) b = b ∷ repeat n b

abbrev pub message : ParsedKommsEvent CborValue
message = record default_event {
  v = 1;
  t = dm_message_post;
  did = some (repeat 32 7);
  ref_bytes = some (1 ∷ 104 ∷ 105 ∷ []);
  enc = true;
  ts = some 1700000000;
  n = some 5;
  sig = some (repeat 64 9);
  enc_scheme = some 1;
  extension_fields = (40, integer 3) ∷ [];
}

pub read-message : read (write (event_value codec message)) ≡ ok (event_value codec message)
unfolding read read_value read_major read_pairs write event_value event_fields pushed v0_slots
    v1_slots v1_1_slots role_slots as_u8 head arg_code arg_bytes read_u8 read_argument read_be
    shortest to_be_bytes to_le_bytes from_be_bytes
read-message = refl

pub valid_message : validate_event message ≡ ok tt
unfolding validate_event check_envelope check_fields check_ref check_mime check_reaction_key
    validate_ref ref_type_agrees check_v1_if check_v1 check_scheme check_sealed_sender check_group
    group_encrypted check_type check_dm_message_post as_u8 is_utf8
valid_message = refl

pub message-IsWellTyped : IsWellTyped message
unfolding as_u8
message-IsWellTyped = record {
  v_u64 = omega arith;
  t_u8 = omega arith;
  sid_len = tt;
  cid_len = tt;
  did_len = refl;
  pid_len = tt;
  mid_len = tt;
  ts_u64 = omega arith;
  n_u64 = omega arith;
  sig_len = refl;
  parent_mid_len = tt;
  enc_scheme_u64 = omega arith;
  kind_u64 = tt;
  ref_type_u64 = tt;
  device_pk_len = tt;
  sig_scheme_u64 = tt;
  member_tag_len = tt;
  match_tag_len = tt;
  key_epoch_u64 = tt;
  role_u8 = tt;
}

pub message-IsEncodable : IsEncodable message
unfolding as_u8 from_u8
message-IsEncodable = record {
  typed = message-IsWellTyped;
  type_lem = refl;
  v0_scheme = λ h. absurd (omega (arith, h));
  extension_ascends = (omega arith, tt);
  extension_u8 = (omega arith, tt);
}

pub message-Fits : Fits codec message
unfolding write
message-Fits = record {
  ref_bytes_fits = omega arith;
  mime_fits = tt;
  reaction_key_fits = tt;
  payment_hint_fits = tt;
  member_sealed_fits = tt;
  enc_sid_fits = tt;
  enc_cid_fits = tt;
  enc_body_ref_fits = tt;
  enc_parent_mid_fits = tt;
  enc_t_fits = tt;
  sealed_signer_fits = tt;
  target_fits = tt;
  extension_writes = (number 0 3 (omega arith) (omega arith) refl, tt);
}

abbrev pub unsigned_message : ParsedKommsEvent CborValue
unsigned_message = record message { sig = none }

pub read-unsigned_message :
    read (write (event_value codec unsigned_message)) ≡ ok (event_value codec unsigned_message)
unfolding read read_value read_major read_pairs write event_value event_fields pushed v0_slots
    v1_slots v1_1_slots role_slots as_u8 head arg_code arg_bytes read_u8 read_argument read_be
    shortest to_be_bytes to_le_bytes from_be_bytes
read-unsigned_message = refl

pub valid_unsigned : validate_event unsigned_message ≡ ok tt
unfolding validate_event check_envelope check_fields check_ref check_mime check_reaction_key
    validate_ref ref_type_agrees check_v1_if check_v1 check_scheme check_sealed_sender check_group
    group_encrypted check_type check_dm_message_post as_u8 is_utf8
valid_unsigned = refl

pub unsigned-IsWellTyped : IsWellTyped unsigned_message
unfolding as_u8
unsigned-IsWellTyped = record {
  v_u64 = omega arith;
  t_u8 = omega arith;
  sid_len = tt;
  cid_len = tt;
  did_len = refl;
  pid_len = tt;
  mid_len = tt;
  ts_u64 = omega arith;
  n_u64 = omega arith;
  sig_len = tt;
  parent_mid_len = tt;
  enc_scheme_u64 = omega arith;
  kind_u64 = tt;
  ref_type_u64 = tt;
  device_pk_len = tt;
  sig_scheme_u64 = tt;
  member_tag_len = tt;
  match_tag_len = tt;
  key_epoch_u64 = tt;
  role_u8 = tt;
}

pub unsigned-IsEncodable : IsEncodable unsigned_message
unfolding as_u8 from_u8
unsigned-IsEncodable = record {
  typed = unsigned-IsWellTyped;
  type_lem = refl;
  v0_scheme = λ h. absurd (omega (arith, h));
  extension_ascends = (omega arith, tt);
  extension_u8 = (omega arith, tt);
}

cbor_message : encode_cbor_map codec message ≡ ok (write (event_value codec message))
unfolding encode_cbor_map recheck_ref validate_ref is_utf8
cbor_message = rw valid_message refl

abbrev pub raw_message : List ℕ
raw_message = komms_payload_prefix ++ write (event_value codec message)

pub encoded_message : encode_komms_payload codec message ≡ ok raw_message
unfolding encode_komms_payload
encoded_message = rw cbor_message refl

pub parsed_message : parse_komms_payload codec raw_message ≡ ok message
parsed_message =
    parse_komms_payload-encode_komms_payload codec codec-Writes message message-IsEncodable
      message-Fits read-message raw_message encoded_message

parse_komms_payload-encode_komms_payload_example :
    parse_komms_payload codec raw_message ≡ ok message
parse_komms_payload-encode_komms_payload_example =
    parse_komms_payload-encode_komms_payload codec codec-Writes message message-IsEncodable
      message-Fits read-message raw_message encoded_message

IsCanonical-event_value_example : IsCanonical 9 (write (event_value codec message))
IsCanonical-event_value_example =
    IsCanonical-event_value codec codec-Writes message message-IsEncodable message-Fits

pub raw_message-IsByte : All IsByte raw_message
unfolding write event_value event_fields pushed v0_slots v1_slots v1_1_slots role_slots as_u8 head
    arg_code arg_bytes to_be_bytes to_le_bytes
raw_message-IsByte = all_bytes_sound raw_message refl

parse_komms_payload_sound_example :
    (cbor : List ℕ) × (raw_message ≡ komms_payload_prefix ++ cbor)
    × IsCanonical 9 cbor
    × (parse_cbor_map codec cbor ≡ ok message)
    × (validate_event message ≡ ok tt)
    × (message.v ≤ 1)
parse_komms_payload_sound_example =
    parse_komms_payload_sound codec raw_message message raw_message-IsByte parsed_message

parse_komms_payload-known_example :
    (parse_komms_payload codec raw_message ≡ ok message)
    ↔ (parse_komms_payload_with_future codec raw_message ≡ ok (known message))
parse_komms_payload-known_example = parse_komms_payload-known codec raw_message message

-- `{0: 2, 1: 0, 8: false}`: an event of version 2.
abbrev pub later : List ℕ
later = 0xA3 ∷ 0x00 ∷ 0x02 ∷ 0x01 ∷ 0x00 ∷ 0x08 ∷ 0xF4 ∷ []

later_read :
    parse_komms_payload_with_future codec (komms_payload_prefix ++ later) ≡ ok (future 2 later)
unfolding parse_komms_payload_with_future read_payload strip_komms_envelope validate_canonical
    walk_item walk_level walk_major walk_map walk_array walk_simple check_order read_uint_key
    check_arg finish skip_bytes read_u8 read_argument read_be shortest parse_cbor_map parse_fields
    collect event_type key_to_u8 to_uint to_sized to_bytes to_text to_sig pop_uint_opt pop_uint
    pop_bytes32 pop_bytes16 pop_bytes pop_text_opt pop_sig to_bool pop_enc synthesise_scheme
    clamp_role parse_envelope parse_v0_core parse_v1_core parse_v1_1_core reject_rest parse_roles
    parse_extension insert remove split_from read read_value read_major read_pairs from_u8
later_read = refl

parse_komms_payload-future_example :
    (2 ≤ 2)
    × (parse_komms_payload codec (komms_payload_prefix ++ later) ≡ err (unsupported_version 2))
parse_komms_payload-future_example =
    parse_komms_payload-future codec (komms_payload_prefix ++ later) 2 later later_read
