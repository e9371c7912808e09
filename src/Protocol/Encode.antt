-- ===== src/Protocol/Encode.antt =====
-- protocol/src/encode.rs: `encode_cbor_map`, `signing_payload_cbor`, and the identifier helpers.
use komms_cli.Base.{
  ℕ, List, [], ◌∷◌, ◌++◌, Option, none, some, Result, ok, ◌>>=◌, ◌>>◌, if◌then◌else◌, ◌==◌,
}
use mathlib.Core.Option
use komms_cli.Protocol.EventType.{as_u8}
use komms_cli.Protocol.Event.{ParsedKommsEvent, ValidationError, komms_payload_prefix}
use komms_cli.Protocol.Validate.Guards.{Check, validate_ref}
use komms_cli.Protocol.Validate.Defs.{validate_event}
use komms_cli.Protocol.FieldMap.{FieldMap}
use komms_cli.Protocol.Ciborium.{Ciborium}

-- The second check of `ref` in `encode_cbor_map`.
unfoldable pub recheck_ref : Option (List ℕ) → Check
recheck_ref none = ok tt
recheck_ref (some r) = validate_ref r

-- `if let Some(value) = slot { pairs.push((bk(key), value)) }`, for each slot in turn.
unfoldable pub pushed : {Value : Type 0} → List (ℕ × Option Value) → FieldMap Value
pushed [] = []
pushed ((key, none) ∷ slots) = pushed slots
pushed ((key, some value) ∷ slots) = (key, value) ∷ pushed slots

module _ (C : Ciborium) where
  open C use {Value, integer, bytes, text, boolean, dict, into_writer}

  abbrev pub uints : Option ℕ → Option Value
  uints = Option.map integer

  abbrev pub byte_strings : Option (List ℕ) → Option Value
  byte_strings = Option.map bytes

  -- Keys 0 to 11; `t`, `v` and `enc` are always written.
  unfoldable pub v0_slots : ParsedKommsEvent Value → List (ℕ × Option Value)
  v0_slots ev =
      (0, some (integer ev.v))
      ∷ (1, some (integer (as_u8 ev.t)))
      ∷ (2, byte_strings ev.sid)
      ∷ (3, byte_strings ev.cid)
      ∷ (4, byte_strings ev.did)
      ∷ (5, byte_strings ev.pid)
      ∷ (6, byte_strings ev.mid)
      ∷ (7, byte_strings ev.ref_bytes)
      ∷ (8, some (boolean ev.enc))
      ∷ (9, uints ev.ts)
      ∷ (10, uints ev.n)
      ∷ (11, byte_strings ev.sig)
      ∷ []

  -- Keys 12 to 20; a v0 event never carries key 13.
  unfoldable pub v1_slots : ParsedKommsEvent Value → List (ℕ × Option Value)
  v1_slots ev =
      (12, byte_strings ev.parent_mid)
      ∷ (13, uints (if ev.v == 0 then none else ev.enc_scheme))
      ∷ (14, uints ev.kind)
      ∷ (15, Option.map text ev.mime)
      ∷ (16, uints ev.ref_type)
      ∷ (17, byte_strings ev.device_pk)
      ∷ (18, uints ev.sig_scheme)
      ∷ (19, byte_strings ev.reaction_key)
      ∷ (20, byte_strings ev.payment_hint)
      ∷ []

  -- Keys 21 to 30.
  unfoldable pub v1_1_slots : ParsedKommsEvent Value → List (ℕ × Option Value)
  v1_1_slots ev =
      (21, byte_strings ev.member_tag)
      ∷ (22, byte_strings ev.member_sealed)
      ∷ (23, byte_strings ev.enc_sid)
      ∷ (24, byte_strings ev.enc_cid)
      ∷ (25, byte_strings ev.enc_body_ref)
      ∷ (26, byte_strings ev.enc_parent_mid)
      ∷ (27, byte_strings ev.match_tag)
      ∷ (28, byte_strings ev.enc_t)
      ∷ (29, uints ev.key_epoch)
      ∷ (30, byte_strings ev.sealed_signer)
      ∷ []

  -- Keys 31 and 32.
  unfoldable pub role_slots : ParsedKommsEvent Value → List (ℕ × Option Value)
  role_slots ev = (31, uints ev.role) ∷ (32, byte_strings ev.target) ∷ []

  -- All pairs, the extension fields last, in the order of their `BTreeMap`.
  unfoldable pub event_fields : ParsedKommsEvent Value → FieldMap Value
  event_fields ev =
      pushed (v0_slots ev)
      ++ (pushed (v1_slots ev)
          ++ (pushed (v1_1_slots ev) ++ (pushed (role_slots ev) ++ ev.extension_fields)))

  -- The keys as CBOR integers (`bk`).
  abbrev pub keyed : FieldMap Value → List (Value × Value)
  keyed [] = []
  keyed ((key, value) ∷ m) = (integer key, value) ∷ keyed m

  unfoldable pub event_value : ParsedKommsEvent Value → Value
  event_value ev = dict (keyed (event_fields ev))

  unfoldable pub encode_cbor_map : ParsedKommsEvent Value → Result ValidationError (List ℕ)
  encode_cbor_map ev = do
    validate_event ev
    recheck_ref ev.ref_bytes
    ok (into_writer (event_value ev))

  -- The map without key 11.
  unfoldable pub signing_payload_cbor : ParsedKommsEvent Value → Result ValidationError (List ℕ)
  signing_payload_cbor ev = encode_cbor_map (record ev { sig = none })

  unfoldable pub encode_komms_payload : ParsedKommsEvent Value → Result ValidationError (List ℕ)
  encode_komms_payload ev = do cbor ← encode_cbor_map ev; ok (komms_payload_prefix ++ cbor)
