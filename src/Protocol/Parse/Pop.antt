-- ===== src/Protocol/Parse/Pop.antt =====
-- protocol/src/lib.rs: `key_to_u8`, the `pop_*` helpers, and the conversions that `parse_cbor_map` does
-- in place.
use komms_cli.Base.{
  ℕ, String, List, [], Bool, false, Option, none, some, Result, ok, err, ok_or, if◌then◌else◌, ltb,
  ◌==◌, length, ℤ, pos, negsuc, ◌^◌,
}
use komms_cli.Protocol.EventType.{EventType, from_u8, server_create}
use komms_cli.Protocol.Event.{
  ParsedKommsEvent, ParseError, invalid_key, expected_uint, event_type_overflow, expected_bool,
  expected_bytes32, expected_bytes16, expected_bytes, expected_text, invalid_sig_length,
  missing_field, v1_1_tag_len,
}
use komms_cli.Protocol.FieldMap.{FieldMap, remove}
use komms_cli.Protocol.Ciborium.{Ciborium}

-- `T::try_from` of a CBOR integer, for the unsigned type whose values lie below `bound`.
abbrev pub try_uint : ℕ → ℤ → Option ℕ
try_uint bound (pos n) = if ltb n bound then some n else none
try_uint bound (negsuc n) = none

abbrev pub u8_bound : ℕ
u8_bound = 256

abbrev pub u64_bound : ℕ
u64_bound = 2 ^ 64

-- `ParsedKommsEvent::default()`.
abbrev pub default_event : {Value : Type 0} → ParsedKommsEvent Value
default_event = record {
  v = 0;
  t = server_create;
  sid = none;
  cid = none;
  did = none;
  pid = none;
  mid = none;
  ref_bytes = none;
  enc = false;
  ts = none;
  n = none;
  sig = none;
  parent_mid = none;
  enc_scheme = none;
  kind = none;
  mime = none;
  ref_type = none;
  device_pk = none;
  sig_scheme = none;
  reaction_key = none;
  payment_hint = none;
  member_tag = none;
  member_sealed = none;
  enc_sid = none;
  enc_cid = none;
  enc_body_ref = none;
  enc_parent_mid = none;
  match_tag = none;
  enc_t = none;
  key_epoch = none;
  sealed_signer = none;
  role = none;
  target = none;
  extension_fields = [];
}

-- A step that takes fields out of the map, or fails.
abbrev pub Parser : Type 0 → Type 0 → Type 0
Parser Value A = FieldMap Value → Result ParseError (A × FieldMap Value)

module _ {Value : Type 0} where
  abbrev pub and_then :
      {A B : Type 0}
      → Result ParseError (A × FieldMap Value)
      → (A → FieldMap Value → Result ParseError B)
      → Result ParseError B
  and_then (ok (a, m)) f = f a m
  and_then (err e) f = err e

  infixl 5 ◌>>=◌
  abbrev pub ◌>>=◌ : {A B : Type 0} → Parser Value A → (A → Parser Value B) → Parser Value B
  ◌>>=◌ p f m = and_then (p m) f

  abbrev pub pure : {A : Type 0} → A → Parser Value A
  pure a m = ok (a, m)

  -- `u8::try_from(t_raw)`.
  unfoldable pub event_type : ℕ → Parser Value EventType
  event_type t_raw m =
      if ltb t_raw u8_bound then ok (from_u8 t_raw, m) else err (event_type_overflow t_raw)

module _ (C : Ciborium) where
  open C use {Value, as_integer, into_bytes, into_text, as_bool, as_map, from_reader}

  unfoldable pub key_to_u8 : Value → Result ParseError ℕ
  key_to_u8 k = elim (as_integer k) [
    | none ↦ err invalid_key
    | some i ↦ ok_or (try_uint u8_bound i) invalid_key
  ]

  -- The conversions of a value that has been taken out of the map.
  unfoldable pub to_uint : String → Value → Result ParseError ℕ
  to_uint name val = elim (as_integer val) [
    | none ↦ err (expected_uint name)
    | some i ↦ ok_or (try_uint u64_bound i) (expected_uint name)
  ]

  unfoldable pub to_sized : ℕ → ParseError → Value → Result ParseError (List ℕ)
  to_sized size e val = elim (into_bytes val) [
    | none ↦ err e
    | some bytes ↦ if length bytes == size then ok bytes else err e
  ]

  unfoldable pub to_bytes : String → Value → Result ParseError (List ℕ)
  to_bytes name val = ok_or (into_bytes val) (expected_bytes name)

  unfoldable pub to_text : String → Value → Result ParseError (List ℕ)
  to_text name val = ok_or (into_text val) (expected_text name)

  unfoldable pub to_sig : Value → Result ParseError (List ℕ)
  to_sig val = elim (into_bytes val) [
    | none ↦ err (expected_bytes "sig")
    | some bytes ↦ if length bytes == 64 then ok bytes else err invalid_sig_length
  ]

  -- `fields.remove(&key)`, and the conversion if the key is there.
  abbrev pub convert :
      {A : Type 0}
      → (Value → Result ParseError A)
      → Option Value × FieldMap Value
      → Result ParseError (Option A × FieldMap Value)
  convert f (none, m) = ok (none, m)
  convert f (some val, m) = elim (f val) [ ok a ↦ ok (some a, m) | err e ↦ err e ]

  abbrev pub pop_with : {A : Type 0} → (Value → Result ParseError A) → ℕ → Parser Value (Option A)
  pop_with f key m = convert f (remove key m)

  abbrev pub demand : {A : Type 0} → String → Option A → Parser Value A
  demand name none m = err (missing_field name)
  demand name (some a) m = ok (a, m)

  unfoldable pub pop_uint_opt : ℕ → String → Parser Value (Option ℕ)
  pop_uint_opt key name = pop_with (to_uint name) key

  unfoldable pub pop_uint : ℕ → String → Parser Value ℕ
  pop_uint key name = pop_uint_opt key name >>= demand name

  unfoldable pub pop_bytes32 : ℕ → String → Parser Value (Option (List ℕ))
  pop_bytes32 key name = pop_with (to_sized 32 (expected_bytes32 name)) key

  unfoldable pub pop_bytes16 : ℕ → String → Parser Value (Option (List ℕ))
  pop_bytes16 key name = pop_with (to_sized v1_1_tag_len (expected_bytes16 name)) key

  unfoldable pub pop_bytes : ℕ → String → Parser Value (Option (List ℕ))
  pop_bytes key name = pop_with (to_bytes name) key

  unfoldable pub pop_text_opt : ℕ → String → Parser Value (Option (List ℕ))
  pop_text_opt key name = pop_with (to_text name) key

  unfoldable pub pop_sig : Parser Value (Option (List ℕ))
  pop_sig = pop_with to_sig 11

  unfoldable pub to_bool : Value → Result ParseError Bool
  to_bool val = ok_or (as_bool val) (expected_bool "enc")

  unfoldable pub pop_enc : Parser Value Bool
  pop_enc = pop_with to_bool 8 >>= demand "enc"
