-- ===== src/Protocol/Validate/ByType.antt =====
-- protocol/src/lib.rs: the match of `validate_event` on the event type, an arm at a time.
-- First what the code computes before it: the effective presence of sid, cid and ref.
use komms_cli.Base.{String, Bool, true, false, not, ◌&&◌, ◌||◌, ok, err, ◌>>◌, guard, is_some}
use komms_cli.Protocol.EventType.{EventType}
use komms_cli.Protocol.Event.{
  ParsedKommsEvent, invalid_enc, forbidden_field, missing_for_type, opaque_event_type,
}
use komms_cli.Protocol.Validate.Guards.{
  Check, group_encrypted, validate_role_byte, validate_target_bytes,
}

module _ {Value : Type 0} where
  unfoldable pub has_sid : ParsedKommsEvent Value → Bool
  unfolding group_encrypted
  has_sid ev = is_some ev.sid || (group_encrypted ev && is_some ev.enc_sid)

  unfoldable pub has_cid : ParsedKommsEvent Value → Bool
  unfolding group_encrypted
  has_cid ev = is_some ev.cid || (group_encrypted ev && is_some ev.enc_cid)

  unfoldable pub has_ref : ParsedKommsEvent Value → Bool
  unfolding group_encrypted
  has_ref ev = is_some ev.ref_bytes || (group_encrypted ev && is_some ev.enc_body_ref)

  unfoldable pub plaintext_enc_misuse : ParsedKommsEvent Value → Bool
  unfolding group_encrypted
  plaintext_enc_misuse ev = ev.enc && not (group_encrypted ev)

  -- The closures `require` and `forbid`.
  abbrev pub require : ParsedKommsEvent Value → Bool → String → Check
  require ev cond field = guard cond (missing_for_type ev.t field)

  abbrev pub forbid : ParsedKommsEvent Value → Bool → String → Check
  forbid ev present field = guard (not present) (forbidden_field ev.t field)

  -- `if plaintext_enc_misuse { return Err(InvalidEnc) }`
  abbrev pub check_enc : ParsedKommsEvent Value → Check
  check_enc ev = guard (not (plaintext_enc_misuse ev)) invalid_enc

  unfoldable pub check_server : ParsedKommsEvent Value → Check
  check_server ev = do
    require ev (has_sid ev) "sid|enc_sid"
    forbid ev (is_some ev.cid || is_some ev.enc_cid) "cid"
    forbid ev (is_some ev.did) "did"
    check_enc ev

  unfoldable pub check_channel : ParsedKommsEvent Value → Check
  check_channel ev = do
    require ev (has_sid ev) "sid|enc_sid"
    require ev (has_cid ev) "cid|enc_cid"
    forbid ev (is_some ev.did) "did"
    check_enc ev

  unfoldable pub check_message_post : ParsedKommsEvent Value → Check
  check_message_post ev = do
    require ev (has_sid ev) "sid|enc_sid"
    require ev (has_cid ev) "cid|enc_cid"
    require ev (has_ref ev) "ref|enc_body_ref"
    forbid ev (plaintext_enc_misuse ev) "enc"

  unfoldable pub check_message_edit : ParsedKommsEvent Value → Check
  check_message_edit ev = do
    require ev (has_sid ev) "sid|enc_sid"
    require ev (has_cid ev) "cid|enc_cid"
    require ev (is_some ev.mid) "mid"
    require ev (has_ref ev) "ref|enc_body_ref"
    forbid ev (plaintext_enc_misuse ev) "enc"

  -- `MessageDelete`, and the arm of `PinMessage` and `UnpinMessage`, which is the same.
  unfoldable pub check_message_mark : ParsedKommsEvent Value → Check
  check_message_mark ev = do
    require ev (has_sid ev) "sid|enc_sid"
    require ev (has_cid ev) "cid|enc_cid"
    require ev (is_some ev.mid) "mid"
    forbid ev (plaintext_enc_misuse ev) "enc"

  unfoldable pub check_dm_message_post : ParsedKommsEvent Value → Check
  check_dm_message_post ev = do
    require ev (is_some ev.did) "did"
    require ev (is_some ev.ref_bytes) "ref"
    require ev ev.enc "enc"
    forbid ev (is_some ev.sid || is_some ev.enc_sid) "sid"
    forbid ev (is_some ev.cid || is_some ev.enc_cid) "cid"

  unfoldable pub check_reaction : ParsedKommsEvent Value → Check
  check_reaction ev = do
    require ev (has_sid ev) "sid|enc_sid"
    require ev (has_cid ev) "cid|enc_cid"
    require ev (is_some ev.mid) "mid"
    require ev (is_some ev.reaction_key || is_some ev.ref_bytes) "reaction_key|ref"
    forbid ev (plaintext_enc_misuse ev) "enc"

  unfoldable pub check_member : ParsedKommsEvent Value → Check
  check_member ev = do
    require ev (is_some ev.sid) "sid"
    require ev (is_some ev.pid) "pid"
    forbid ev (is_some ev.cid) "cid"
    forbid ev (is_some ev.did) "did"
    check_enc ev

  unfoldable pub check_role_assign : ParsedKommsEvent Value → Check
  check_role_assign ev = do
    require ev (has_sid ev) "sid|enc_sid"
    require ev (is_some ev.target) "target"
    require ev (is_some ev.role) "role"
    validate_role_byte ev.role
    validate_target_bytes ev.target
    check_enc ev

  -- `validate_role_byte` accepts an absent role, so the test `role.is_some()` before it adds nothing.
  unfoldable pub check_role_revoke : ParsedKommsEvent Value → Check
  check_role_revoke ev = do
    require ev (has_sid ev) "sid|enc_sid"
    require ev (is_some ev.target) "target"
    elim (is_some ev.role) [ true ↦ validate_role_byte ev.role | false ↦ ok tt ]
    validate_target_bytes ev.target
    check_enc ev

  unfoldable pub check_moderation : ParsedKommsEvent Value → Check
  check_moderation ev = do
    require ev (has_sid ev) "sid|enc_sid"
    forbid ev (plaintext_enc_misuse ev) "enc"

  unfoldable pub check_device_register : ParsedKommsEvent Value → Check
  check_device_register ev = do
    require ev (is_some ev.device_pk) "device_pk"
    require ev (is_some ev.sig) "sig"
    require ev (is_some ev.sig_scheme) "sig_scheme"
    forbid ev (plaintext_enc_misuse ev) "enc"

  unfoldable pub check_device_revoke : ParsedKommsEvent Value → Check
  check_device_revoke ev = do
    require ev (is_some ev.device_pk) "device_pk"
    require ev (is_some ev.sig) "sig"
    forbid ev (plaintext_enc_misuse ev) "enc"

  unfoldable pub check_bookmark : ParsedKommsEvent Value → Check
  check_bookmark ev = do
    require ev (is_some ev.mid) "mid"
    forbid ev (plaintext_enc_misuse ev) "enc"

  unfoldable pub check_sealed_join : ParsedKommsEvent Value → Check
  check_sealed_join ev = do
    require ev (group_encrypted ev) "enc_scheme=4"
    require ev (is_some ev.member_tag) "member_tag"
    require ev (is_some ev.member_sealed) "member_sealed"
    require ev (is_some ev.match_tag) "match_tag"
    require ev (is_some ev.key_epoch) "key_epoch"
    forbid ev (is_some ev.sid) "sid"
    forbid ev (is_some ev.cid) "cid"
    forbid ev (is_some ev.did) "did"
    forbid ev (is_some ev.pid) "pid"

  unfoldable pub check_sealed_leave : ParsedKommsEvent Value → Check
  check_sealed_leave ev = do
    require ev (is_some ev.member_tag) "member_tag"
    require ev (is_some ev.sig) "sig"
    forbid ev (is_some ev.sid) "sid"
    forbid ev (is_some ev.cid) "cid"
    forbid ev (is_some ev.did) "did"
    forbid ev (is_some ev.pid) "pid"

  unfoldable pub check_key_rotate : ParsedKommsEvent Value → Check
  check_key_rotate ev = do
    require ev (group_encrypted ev) "enc_scheme=4"
    require ev (is_some ev.member_sealed) "member_sealed"
    require ev (is_some ev.match_tag) "match_tag"
    require ev (is_some ev.key_epoch) "key_epoch"
    forbid ev (is_some ev.sid) "sid"
    forbid ev (is_some ev.cid) "cid"

  unfoldable pub check_sealed_event : ParsedKommsEvent Value → Check
  check_sealed_event ev = do
    require ev (group_encrypted ev) "enc_scheme=4"
    require ev (is_some ev.enc_t) "enc_t"
    forbid ev (is_some ev.sid) "sid"
    forbid ev (is_some ev.cid) "cid"
    forbid ev (is_some ev.did) "did"
    forbid ev (is_some ev.pid) "pid"

  -- The match itself; it is called with `ev.t`.
  unfoldable pub check_type : EventType → ParsedKommsEvent Value → Check
  check_type EventType.server_create ev = check_server ev
  check_type EventType.server_update ev = check_server ev
  check_type EventType.channel_create ev = check_channel ev
  check_type EventType.channel_update ev = check_channel ev
  check_type EventType.message_post ev = check_message_post ev
  check_type EventType.message_edit ev = check_message_edit ev
  check_type EventType.message_delete ev = check_message_mark ev
  check_type EventType.dm_message_post ev = check_dm_message_post ev
  check_type EventType.reaction_add ev = check_reaction ev
  check_type EventType.reaction_remove ev = check_reaction ev
  check_type EventType.member_join ev = check_member ev
  check_type EventType.member_leave ev = check_member ev
  check_type EventType.role_assign ev = check_role_assign ev
  check_type EventType.role_revoke ev = check_role_revoke ev
  check_type EventType.moderation_action ev = check_moderation ev
  check_type EventType.device_register ev = check_device_register ev
  check_type EventType.device_revoke ev = check_device_revoke ev
  check_type EventType.pin_message ev = check_message_mark ev
  check_type EventType.unpin_message ev = check_message_mark ev
  check_type EventType.bookmark_add ev = check_bookmark ev
  check_type EventType.bookmark_remove ev = check_bookmark ev
  check_type EventType.sealed_member_join ev = check_sealed_join ev
  check_type EventType.sealed_member_leave ev = check_sealed_leave ev
  check_type EventType.key_rotate ev = check_key_rotate ev
  check_type EventType.sealed_event ev = check_sealed_event ev
  check_type (EventType.reserved n) ev = err (opaque_event_type ev.t)
