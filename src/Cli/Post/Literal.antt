-- ===== src/Cli/Post/Literal.antt =====
-- src/lib.rs: the events that the struct literals of `build_post_ev` make, for validation and for the wire.
use komms_cli.Base.{
  ℕ, List, Bool, true, false, Option, none, some, ◌>>◌, ◌≡◌, ◌<◌, refl, if◌then◌else◌, IsU64, arith,
}
use komms_cli.Protocol.RoundTrip.WellTyped.{Holds}
use komms_cli.Protocol.EventType.{EventType, as_u8, is_known, from_u8-as_u8}
use komms_cli.Protocol.Event.{ParsedKommsEvent}
use komms_cli.Protocol.Ciborium.{Ciborium}
use komms_cli.Protocol.Validate.Guards.{
  check_ref, check_envelope, check_fields, check_mime, check_reaction_key, check_v1_if,
  check_sealed_sender, check_group, group_encrypted,
}
use komms_cli.Protocol.Validate.ByType.{
  check_type, check_server, check_channel, check_message_post, check_message_edit,
  check_message_mark, check_dm_message_post, check_reaction, check_member, check_role_assign,
  check_role_revoke, check_moderation, check_device_register, check_device_revoke, check_bookmark,
  check_sealed_join, check_sealed_leave, check_key_rotate, check_sealed_event, has_sid, has_cid,
  has_ref, plaintext_enc_misuse,
}
use komms_cli.Protocol.Validate.Defs.{validate_event}
use komms_cli.Protocol.Encode.{
  encode_cbor_map, encode_komms_payload, event_value, event_fields, v1_slots, v0_slots, v1_1_slots,
  role_slots,
}
use komms_cli.Protocol.RoundTrip.Fields.{IsEncodable}
use komms_cli.Cli.Post.Commands.{OptMeta}
use komms_cli.Cli.Post.Args.{literal}
use komms_cli.Cli.Post.Ensures.{Sized}

-- The event that a reader of the payload has: the parser fills in the scheme of a v0 event.
abbrev pub stored : {Value : Type 0} → ParsedKommsEvent Value → ParsedKommsEvent Value
stored ev = record ev { enc_scheme = some (if ev.enc then 1 else 0) }

-- The time and the nonce of the command line are u64.
abbrev pub IsMetaU64 : OptMeta → Type 0
IsMetaU64 m = Holds (λ x. IsU64 x) m.ts × Holds (λ x. IsU64 x) m.n

as_u8_known : (t : EventType) → is_known t ≡ true → as_u8 t < 256
unfolding as_u8 is_known
as_u8_known (EventType.reserved n) h = cc
as_u8_known _ h = omega arith

pub stored_valid :
    (Value : Type 0) (t : EventType) (sid cid did pid mid ref_bytes : Option (List ℕ)) (enc : Bool)
    (meta : OptMeta) (sig : Option (List ℕ))
    → validate_event {Value = Value} (stored (literal t sid cid did pid mid ref_bytes enc meta sig))
      ≡ validate_event {Value = Value} (literal t sid cid did pid mid ref_bytes enc meta sig)
unfolding validate_event check_envelope check_fields check_v1_if check_sealed_sender check_group
    group_encrypted check_type check_server check_channel check_message_post check_message_edit
    check_message_mark check_dm_message_post check_reaction check_member check_role_assign
    check_role_revoke check_moderation check_device_register check_device_revoke check_bookmark
    check_sealed_join check_sealed_leave check_key_rotate check_sealed_event has_sid has_cid has_ref
    plaintext_enc_misuse
stored_valid Value (EventType.reserved k) sid cid did pid mid ref_bytes false meta sig = refl
stored_valid Value (EventType.reserved k) sid cid did pid mid ref_bytes true meta sig = refl
stored_valid Value _ sid cid did pid mid ref_bytes false meta sig = refl
stored_valid Value _ sid cid did pid mid ref_bytes true meta sig = refl

pub fields_valid :
    {Value : Type 0} (ev : ParsedKommsEvent Value)
    → ev.v ≡ 0
    → is_known ev.t ≡ true
    → ev.ref_type ≡ none
    → ev.mime ≡ none
    → ev.reaction_key ≡ none
    → ev.sealed_signer ≡ none
    → ev.sig_scheme ≡ none
    → ev.enc_scheme ≡ none
    → validate_event ev ≡ (check_ref ev.ref_bytes none >> check_type ev.t ev)
unfolding validate_event check_envelope check_fields check_mime check_reaction_key check_v1_if
    check_sealed_sender check_group group_encrypted is_known as_u8
fields_valid ev v k rt m rk ss sc es = ground (arith, v, rt, m, rk, ss, sc, es)

module _ {Value : Type 0} (t : EventType) (known : is_known t ≡ true)
    (sid cid did pid mid ref_bytes : Option (List ℕ)) (enc : Bool) (meta : OptMeta)
    (sig : Option (List ℕ)) where
  abbrev pub event : ParsedKommsEvent Value
  event = literal t sid cid did pid mid ref_bytes enc meta sig

  pub literal-IsEncodable :
      IsMetaU64 meta
      → Sized 32 sid
      → Sized 32 cid
      → Sized 32 did
      → Sized 32 pid
      → Sized 32 mid
      → Sized 64 sig
      → IsEncodable (stored event)
  literal-IsEncodable (ts, n) s c d p m g = record {
    typed = record {
      v_u64 = omega arith;
      t_u8 = as_u8_known t known;
      sid_len = s;
      cid_len = c;
      did_len = d;
      pid_len = p;
      mid_len = m;
      ts_u64 = ts;
      n_u64 = n;
      sig_len = g;
      parent_mid_len = tt;
      enc_scheme_u64 = ground arith;
      kind_u64 = tt;
      ref_type_u64 = tt;
      device_pk_len = tt;
      sig_scheme_u64 = tt;
      member_tag_len = tt;
      match_tag_len = tt;
      key_epoch_u64 = tt;
      role_u8 = tt;
    };
    type_lem = from_u8-as_u8 t known;
    v0_scheme = λ h. refl;
    extension_ascends = tt;
    extension_u8 = tt;
  }

-- Validation and the wire form do not see the scheme that is filled in.
pub encode-stored :
    (C : Ciborium) (t : EventType) (sid cid did pid mid ref_bytes : Option (List ℕ)) (enc : Bool)
    (meta : OptMeta) (sig : Option (List ℕ))
    → let ev = literal t sid cid did pid mid ref_bytes enc meta sig in
      encode_komms_payload C (stored ev) ≡ encode_komms_payload C ev
unfolding encode_komms_payload encode_cbor_map event_value event_fields v0_slots v1_slots v1_1_slots
    role_slots
encode-stored C t sid cid did pid mid ref_bytes enc meta sig =
    rw (stored_valid C.Value t sid cid did pid mid ref_bytes enc meta sig) refl
