-- ===== src/Protocol/Typed/Parsed.antt =====
-- protocol/src/lib.rs: what an event that `parse_cbor_map` returns satisfies.
use komms_cli.Base.{
  ℕ, ◌<◌, List, [], ◌∷◌, String, true, Option, none, some, Result, ok, err, ok_or, ◌≡◌, is_some,
  arith, Ensures, Ensures-ok, ℤ, pos, negsuc, ltb, Bool-cases, inl, inr,
}
use komms_cli.Protocol.RoundTrip.WellTyped.{IsWellTyped}
use komms_cli.Protocol.EventType.{as_u8, from_u8}
use komms_cli.Protocol.Event.{
  ParsedKommsEvent, ParseError, invalid_key, extension_key_min, duplicate_key, cbor, not_a_map,
}
use komms_cli.Protocol.FieldMap.{FieldMap, Ascends, Below, insert, split_from}
use komms_cli.Protocol.FieldMap.Kept.{IsMap, IsMap-insert, split_from-Ascends, split_from-Below}
use komms_cli.Protocol.Ciborium.{Ciborium}
use komms_cli.Protocol.Parse.Pop.{key_to_u8, try_uint, u8_bound}
use komms_cli.Protocol.Parse.Stages.{
  parse_extension, reject_rest, check_rest, parse_fields, collect, parse_cbor_map,
}
use komms_cli.Protocol.Typed.Pop.{and_then-Ensures}
use komms_cli.Protocol.Typed.Stages.{
  EnvelopeTyped, ThroughV0, ThroughV1, ThroughV11, ThroughRoles, parse_envelope-Yields,
  parse_v0_core-Yields, parse_v1_core-Yields, parse_v1_1_core-Yields, parse_roles-Yields,
}

-- The fields have their Rust types, the event type is the one of its discriminant, a v0 event has a scheme, and
-- the extension fields form a map over keys 33 to 255.
pub record IsParsed {Value : Type 0} (ev : ParsedKommsEvent Value) : Type 0 where
  pub typed : IsWellTyped ev
  pub type_lem : from_u8 (as_u8 ev.t) ≡ ev.t
  pub v0_has_scheme : ev.v ≡ 0 → is_some ev.enc_scheme ≡ true
  pub extension_ascends : Ascends 33 ev.extension_fields
  pub extension_u8 : Below 256 ev.extension_fields

module _ (C : Ciborium) where
  open C use {Value}

  key_to_u8-Ensures : (k : Value) → Ensures (λ key. key < 256) (key_to_u8 C k)
  unfolding key_to_u8
  key_to_u8-Ensures k = given (C.as_integer k)
    where
      given :
          (o : Option ℤ)
          → Ensures
              (λ key. key < 256)
              (elim o [ none ↦ err invalid_key | some i ↦ ok_or (try_uint u8_bound i) invalid_key ])
      given none = tt
      given (some (pos n)) = elim (Bool-cases (ltb n u8_bound)) [
        | inl e ↦ rw e (ground arith)
        | inr e ↦ rw e tt
      ]
      given (some (negsuc n)) = tt

  collect-Ensures :
      (entries : List (Value × Value)) (m : FieldMap Value)
      → IsMap m
      → Ensures IsMap (collect C entries m)
  unfolding collect
  collect-Ensures [] m i = i
  collect-Ensures ((k, val) ∷ entries) m i =
      with_key (key_to_u8 C k) (key_to_u8-Ensures k)
        (λ key h. collect-Ensures entries (insert key val m).1 (IsMap-insert key val m h i))
    where
      inserted :
          (key : ℕ) (old : Option Value) (m' : FieldMap Value)
          → Ensures IsMap (collect C entries m')
          → Ensures IsMap
              (elim old [ none ↦ collect C entries m' | some previous ↦ err (duplicate_key key) ])
      inserted key none m' h = h
      inserted key (some previous) m' h = tt

      with_key :
          (r : Result ParseError ℕ)
          → Ensures (λ key. key < 256) r
          → ((key : ℕ) → key < 256 → Ensures IsMap (collect C entries (insert key val m).1))
          → Ensures IsMap (elim r [
            | err e ↦ err e
            | ok key ↦
                let (old, m') = insert key val m in
                elim old [ none ↦ collect C entries m' | some previous ↦ err (duplicate_key key) ]
          ])
      with_key (ok key) h next = inserted key (insert key val m).0 (insert key val m).1 (next key h)
      with_key (err e) h next = tt

  parse_extension-Ensures :
      (base : ParsedKommsEvent Value) (m : FieldMap Value)
      → ThroughRoles C base
      → IsMap m
      → Ensures IsParsed (parse_extension C base m)
  unfolding parse_extension
  parse_extension-Ensures base m b i = checked (reject_rest C (split_from extension_key_min m).1)
    where
      checked :
          (r : Result ParseError (Unit {0}))
          → Ensures IsParsed (
              check_rest C r
                (record base { extension_fields = (split_from extension_key_min m).0 }))
      checked (err e) = tt
      checked (ok u) =
          let (
            (
              (
                ((v, t_u8, type_lem), (sid, cid, did, pid, mid, ts, n, sig)),
                (parent_mid, enc_scheme, kind, ref_type, device_pk, sig_scheme, has_scheme),
              ),
              (member_tag, match_tag, key_epoch),
            ),
            role,
          ) =
            b in
          record {
            typed = record {
              v_u64 = v;
              t_u8 = t_u8;
              sid_len = sid;
              cid_len = cid;
              did_len = did;
              pid_len = pid;
              mid_len = mid;
              ts_u64 = ts;
              n_u64 = n;
              sig_len = sig;
              parent_mid_len = parent_mid;
              enc_scheme_u64 = enc_scheme;
              kind_u64 = kind;
              ref_type_u64 = ref_type;
              device_pk_len = device_pk;
              sig_scheme_u64 = sig_scheme;
              member_tag_len = member_tag;
              match_tag_len = match_tag;
              key_epoch_u64 = key_epoch;
              role_u8 = role;
            };
            type_lem = type_lem;
            v0_has_scheme = has_scheme;
            extension_ascends = split_from-Ascends 0 33 m i.ascends;
            extension_u8 = split_from-Below 256 33 m i.below;
          }

  parse_fields-Ensures : (m : FieldMap Value) → IsMap m → Ensures IsParsed (parse_fields C m)
  unfolding parse_fields
  parse_fields-Ensures m i =
      and_then-Ensures (ThroughRoles C) IsParsed _ _
        (and_then-Ensures (ThroughV11 C) _ _ _
          (and_then-Ensures (ThroughV1 C) _ _ _
            (and_then-Ensures (ThroughV0 C) _ _ _
              (and_then-Ensures EnvelopeTyped _ _ _ (parse_envelope-Yields C m i)
                (parse_v0_core-Yields C))
              (parse_v1_core-Yields C))
            (parse_v1_1_core-Yields C))
          (parse_roles-Yields C))
        parse_extension-Ensures

  -- An event that is parsed has the lengths and the bounds of its Rust types, the event type of its
  -- discriminant, a scheme if it is a v0 event, and extension fields that form a map over keys 33 to 255.
  pub parse_cbor_map-IsParsed :
      (bytes : List ℕ) (ev : ParsedKommsEvent Value) → parse_cbor_map C bytes ≡ ok ev → IsParsed ev
  unfolding parse_cbor_map
  parse_cbor_map-IsParsed bytes ev e = Ensures-ok IsParsed (parse_cbor_map C bytes) e parsed
    where
      fields_of :
          (r : Result ParseError (FieldMap Value))
          → Ensures IsMap r
          → Ensures IsParsed (elim r [ ok fields ↦ parse_fields C fields | err why ↦ err why ])
      fields_of (ok fields) i = parse_fields-Ensures fields i
      fields_of (err why) i = tt

      entries_of :
          (o : Option (List (Value × Value)))
          → Ensures IsParsed (elim o [
            | none ↦ err not_a_map
            | some entries ↦ elim (collect C entries []) [
              | ok fields ↦ parse_fields C fields
              | err why ↦ err why
            ]
          ])
      entries_of none = tt
      entries_of (some entries) =
          fields_of (collect C entries [])
            (collect-Ensures entries [] (record { ascends = tt; below = tt }))

      value_of :
          (r : Result String Value)
          → Ensures IsParsed (elim r [
            | err why ↦ err (cbor why)
            | ok value ↦ elim (C.as_map value) [
              | none ↦ err not_a_map
              | some entries ↦ elim (collect C entries []) [
                | ok fields ↦ parse_fields C fields
                | err why ↦ err why
              ]
            ]
          ])
      value_of (err why) = tt
      value_of (ok value) = entries_of (C.as_map value)

      parsed : Ensures IsParsed (parse_cbor_map C bytes)
      parsed = value_of (C.from_reader bytes)
