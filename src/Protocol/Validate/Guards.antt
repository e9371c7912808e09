-- ===== src/Protocol/Validate/Guards.antt =====
-- protocol/src/lib.rs: the checks of `validate_event` before its match on the event type, in order.
use komms_cli.Base.{
  ℕ, suc, List, [], ◌∷◌, Bool, true, false, not, ◌||◌, Option, some, none, Result, ok, err, ◌>>=◌,
  ◌>>◌, guard, ok_or, if◌then◌else◌, ltb, leb, ◌==◌, length, is_some, is_utf8, is_ascii, ◌%◌,
}
use komms_cli.Protocol.EventType.{
  EventType, as_u8, sealed_member_join, sealed_member_leave, key_rotate,
}
use komms_cli.Protocol.Event.{
  ParsedKommsEvent, ValidationError, max_known_version, role_max, bad_version, unknown_enc_scheme,
  unknown_role, invalid_target_length, invalid_ref, invalid_reaction_key, invalid_mime,
  enc_scheme_mismatch, v1_missing_field, v1_1_missing_field, ephemeral_on_chain,
  deprecated_enc_scheme_mls, sealed_sender_not_implemented,
}

abbrev pub Check : Type 0
Check = Result ValidationError (Unit {0})

-- A body of `ref_type` 1 is a UTF-8 CID, one of `ref_type` 2 a 32-byte hash.
unfoldable pub validate_ref : List ℕ → Check
validate_ref [] = err invalid_ref
validate_ref (kind ∷ body) =
    if kind == 0x01
    then guard (not (length body == 0 || not (is_utf8 body))) invalid_ref
    else if kind == 0x02
    then guard (suc (length body) == 33) invalid_ref
    else err invalid_ref

unfoldable pub validate_role_byte : Option ℕ → Check
validate_role_byte none = ok tt
validate_role_byte (some r) = if ltb role_max r then err (unknown_role r) else ok tt

unfoldable pub validate_target_bytes : Option (List ℕ) → Check
validate_target_bytes none = ok tt
validate_target_bytes (some bytes) =
    if ltb (length bytes) 2 then err (invalid_target_length (length bytes)) else ok tt

-- `rt > 0xFF || rt as u8 != r[0]`, for a `ref` that is not empty.
unfoldable pub ref_type_agrees : Option ℕ → List ℕ → Bool
ref_type_agrees none r = true
ref_type_agrees (some rt) [] = false
ref_type_agrees (some rt) (kind ∷ body) = not (ltb 0xFF rt || not ((rt % 256) == kind))

unfoldable pub check_ref : Option (List ℕ) → Option ℕ → Check
unfolding validate_ref ref_type_agrees
check_ref none ref_type = ok tt
check_ref (some r) ref_type = do validate_ref r; guard (ref_type_agrees ref_type r) invalid_ref

unfoldable pub check_mime : Option (List ℕ) → Check
check_mime none = ok tt
check_mime (some m) =
    guard (not (length m == 0 || ltb 64 (length m) || not (is_ascii m))) invalid_mime

unfoldable pub check_reaction_key : Option (List ℕ) → Check
check_reaction_key none = ok tt
check_reaction_key (some rk) =
    guard (not (length rk == 0 || ltb 32 (length rk))) invalid_reaction_key

-- `match scheme { 0 | 1 | 3 | 4 => {} 2 => .. _ => .. }`
unfoldable pub check_scheme : ℕ → Check
check_scheme scheme =
    if scheme == 0 || scheme == 1 || scheme == 3 || scheme == 4
    then ok tt
    else if scheme == 2
    then err deprecated_enc_scheme_mls
    else err (unknown_enc_scheme scheme)

-- `matches!(sig_scheme, Some(1))`
abbrev pub is_blsag : Option ℕ → Bool
is_blsag none = false
is_blsag (some s) = s == 1

abbrev pub agree : Bool → Bool → Bool
agree true b = b
agree false b = not b

module _ {Value : Type 0} where
  unfoldable pub check_envelope : ParsedKommsEvent Value → Check
  check_envelope ev = do
    guard (not (ltb max_known_version ev.v)) (bad_version ev.v)
    guard (not (as_u8 ev.t == 21 || as_u8 ev.t == 22)) (ephemeral_on_chain ev.t)

  unfoldable pub check_fields : ParsedKommsEvent Value → Check
  unfolding check_ref check_mime check_reaction_key
  check_fields ev = do
    check_ref ev.ref_bytes ev.ref_type
    check_mime ev.mime
    check_reaction_key ev.reaction_key

  -- The block under `if ev.v >= 1`.
  unfoldable pub check_v1 : ParsedKommsEvent Value → Check
  unfolding check_scheme
  check_v1 ev = do
    scheme ← ok_or ev.enc_scheme (v1_missing_field "enc_scheme")
    guard (agree (not (scheme == 0)) ev.enc) (enc_scheme_mismatch scheme ev.enc)
    check_scheme scheme
    guard (is_some ev.ts) (v1_missing_field "ts")
    guard (is_some ev.n) (v1_missing_field "n")

  unfoldable pub check_v1_if : ParsedKommsEvent Value → Check
  unfolding check_v1
  check_v1_if ev = if leb 1 ev.v then check_v1 ev else ok tt

  unfoldable pub check_sealed_sender : ParsedKommsEvent Value → Check
  check_sealed_sender ev =
      guard (not (is_blsag ev.sig_scheme || is_some ev.sealed_signer)) sealed_sender_not_implemented

  unfoldable pub group_encrypted : ParsedKommsEvent Value → Bool
  group_encrypted ev = elim ev.enc_scheme [ none ↦ false | some s ↦ s == 4 ]

  unfoldable pub has_enc_counterpart : ParsedKommsEvent Value → Bool
  has_enc_counterpart ev =
      is_some ev.enc_sid
      || is_some ev.enc_cid
      || is_some ev.enc_body_ref
      || is_some ev.enc_parent_mid
      || is_some ev.enc_t

abbrev pub is_sealed_member_event : EventType → Bool
is_sealed_member_event sealed_member_join = true
is_sealed_member_event sealed_member_leave = true
is_sealed_member_event key_rotate = true
is_sealed_member_event _ = false

module _ {Value : Type 0} where
  unfoldable pub check_group : ParsedKommsEvent Value → Check
  check_group ev =
      if group_encrypted ev
      then (do
        guard (is_some ev.match_tag) (v1_1_missing_field "match_tag")
        guard (is_some ev.key_epoch) (v1_1_missing_field "key_epoch")
        guard (has_enc_counterpart ev || is_sealed_member_event ev.t)
            (v1_1_missing_field "enc_* counterpart"))
      else ok tt
