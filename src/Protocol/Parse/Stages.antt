-- ===== src/Protocol/Parse/Stages.antt =====
-- protocol/src/lib.rs: `parse_cbor_map`, a stage for each group of keys.
use komms_cli.Base.{
  ℕ, List, [], ◌∷◌, Bool, not, ◌&&◌, Option, none, some, Result, ok, err, is_some, if◌then◌else◌,
  ltb, ◌==◌,
}
use komms_cli.Protocol.Event.{
  ParsedKommsEvent, ParseError, cbor, not_a_map, duplicate_key, reserved_core_key,
  extension_key_min,
}
use komms_cli.Protocol.FieldMap.{FieldMap, insert, split_from}
use komms_cli.Protocol.Ciborium.{Ciborium}
use komms_cli.Protocol.Parse.Pop.{
  Parser, and_then, ◌>>=◌, pure, default_event, key_to_u8, pop_uint, pop_uint_opt, pop_bytes32,
  pop_bytes16, pop_bytes, pop_text_opt, pop_sig, pop_enc, event_type,
}

-- `if v == 0 && enc_scheme.is_none() { enc_scheme = Some(if enc { 1 } else { 0 }) }`
unfoldable pub synthesise_scheme : ℕ → Bool → Option ℕ → Option ℕ
synthesise_scheme v enc enc_scheme =
    if v == 0 && not (is_some enc_scheme) then some (if enc then 1 else 0) else enc_scheme

-- A role above 255 saturates.
unfoldable pub clamp_role : Option ℕ → Option ℕ
clamp_role none = none
clamp_role (some v) = some (if ltb 255 v then 255 else v)

module _ (C : Ciborium) where
  open C use {Value, as_integer, into_bytes, into_text, as_bool, as_map, from_reader}

  -- Keys 0, 1 and 8.
  unfoldable pub parse_envelope : Parser Value (ParsedKommsEvent Value)
  parse_envelope = do
    v ← pop_uint C 0 "v"
    t_raw ← pop_uint C 1 "t"
    t ← event_type t_raw
    enc ← pop_enc C
    pure (record default_event { v = v; t = t; enc = enc })

  -- Keys 2 to 7 and 9 to 11.
  unfoldable pub parse_v0_core : ParsedKommsEvent Value → Parser Value (ParsedKommsEvent Value)
  parse_v0_core ev = do
    sid ← pop_bytes32 C 2 "sid"
    cid ← pop_bytes32 C 3 "cid"
    did ← pop_bytes32 C 4 "did"
    pid ← pop_bytes32 C 5 "pid"
    mid ← pop_bytes32 C 6 "mid"
    ref_bytes ← pop_bytes C 7 "ref"
    ts ← pop_uint_opt C 9 "ts"
    n ← pop_uint_opt C 10 "n"
    sig ← pop_sig C
    pure (record ev {
      sid = sid;
      cid = cid;
      did = did;
      pid = pid;
      mid = mid;
      ref_bytes = ref_bytes;
      ts = ts;
      n = n;
      sig = sig;
    })

  -- Keys 12 to 20.
  unfoldable pub parse_v1_core : ParsedKommsEvent Value → Parser Value (ParsedKommsEvent Value)
  parse_v1_core ev = do
    parent_mid ← pop_bytes32 C 12 "parent_mid"
    enc_scheme ← pop_uint_opt C 13 "enc_scheme"
    kind ← pop_uint_opt C 14 "kind"
    mime ← pop_text_opt C 15 "mime"
    ref_type ← pop_uint_opt C 16 "ref_type"
    device_pk ← pop_bytes32 C 17 "device_pk"
    sig_scheme ← pop_uint_opt C 18 "sig_scheme"
    reaction_key ← pop_bytes C 19 "reaction_key"
    payment_hint ← pop_bytes C 20 "payment_hint"
    pure (record ev {
      parent_mid = parent_mid;
      enc_scheme = synthesise_scheme ev.v ev.enc enc_scheme;
      kind = kind;
      mime = mime;
      ref_type = ref_type;
      device_pk = device_pk;
      sig_scheme = sig_scheme;
      reaction_key = reaction_key;
      payment_hint = payment_hint;
    })

  -- Keys 21 to 30.
  unfoldable pub parse_v1_1_core : ParsedKommsEvent Value → Parser Value (ParsedKommsEvent Value)
  parse_v1_1_core ev = do
    member_tag ← pop_bytes16 C 21 "member_tag"
    member_sealed ← pop_bytes C 22 "member_sealed"
    enc_sid ← pop_bytes C 23 "enc_sid"
    enc_cid ← pop_bytes C 24 "enc_cid"
    enc_body_ref ← pop_bytes C 25 "enc_body_ref"
    enc_parent_mid ← pop_bytes C 26 "enc_parent_mid"
    match_tag ← pop_bytes16 C 27 "match_tag"
    enc_t ← pop_bytes C 28 "enc_t"
    key_epoch ← pop_uint_opt C 29 "key_epoch"
    sealed_signer ← pop_bytes C 30 "sealed_signer"
    pure (record ev {
      member_tag = member_tag;
      member_sealed = member_sealed;
      enc_sid = enc_sid;
      enc_cid = enc_cid;
      enc_body_ref = enc_body_ref;
      enc_parent_mid = enc_parent_mid;
      match_tag = match_tag;
      enc_t = enc_t;
      key_epoch = key_epoch;
      sealed_signer = sealed_signer;
    })

  -- What is left below key 33 is a core key that is not allocated; the first is reported.
  unfoldable pub reject_rest : FieldMap Value → Result ParseError (Unit {0})
  reject_rest [] = ok tt
  reject_rest ((key, val) ∷ m) = err (reserved_core_key key)

  -- Keys 31 and 32, the extension keys, and the check that nothing is left.
  unfoldable pub parse_roles : ParsedKommsEvent Value → Parser Value (ParsedKommsEvent Value)
  parse_roles ev = do
    role ← pop_uint_opt C 31 "role"
    target ← pop_bytes C 32 "target"
    pure (record ev { role = clamp_role role; target = target })

  abbrev pub check_rest :
      Result ParseError (Unit {0})
      → ParsedKommsEvent Value
      → Result ParseError (ParsedKommsEvent Value)
  check_rest (ok u) ev = ok ev
  check_rest (err e) ev = err e

  unfoldable pub parse_extension :
      ParsedKommsEvent Value → FieldMap Value → Result ParseError (ParsedKommsEvent Value)
  parse_extension ev m =
      let parts = split_from extension_key_min m in
      check_rest (reject_rest parts.1) (record ev { extension_fields = parts.0 })

  unfoldable pub parse_fields : FieldMap Value → Result ParseError (ParsedKommsEvent Value)
  parse_fields m =
      and_then
        ((parse_envelope >>= parse_v0_core >>= parse_v1_core >>= parse_v1_1_core >>= parse_roles) m)
        parse_extension

  -- The loop that fills the map.
  unfoldable pub collect :
      List (Value × Value) → FieldMap Value → Result ParseError (FieldMap Value)
  collect [] m = ok m
  collect ((k, val) ∷ entries) m = elim (key_to_u8 C k) [
    | err e ↦ err e
    | ok key ↦
        let (old, m') = insert key val m in
        elim old [ none ↦ collect entries m' | some previous ↦ err (duplicate_key key) ]
  ]

  unfoldable pub parse_cbor_map : List ℕ → Result ParseError (ParsedKommsEvent Value)
  parse_cbor_map bytes = elim (from_reader bytes) [
    | err e ↦ err (cbor e)
    | ok value ↦ elim (as_map value) [
      | none ↦ err not_a_map
      | some entries ↦ elim (collect entries []) [ ok fields ↦ parse_fields fields | err e ↦ err e ]
    ]
  ]
