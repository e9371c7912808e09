-- ===== src/Protocol/EventType.antt =====
-- protocol/src/lib.rs: `EventType` and its wire discriminant.
use komms_cli.Base.{
  ℕ, ◌≡◌, refl, Bool, true, false, if◌then◌else◌, ltb, leb, ◌==◌, ◌||◌, ◌&&◌, arith, Result, ok,
  err,
}

pub data EventType : Type 0 where
  server_create server_update channel_create channel_update : EventType
  message_post message_edit message_delete dm_message_post : EventType
  reaction_add reaction_remove member_join member_leave : EventType
  role_assign role_revoke moderation_action : EventType
  device_register device_revoke pin_message unpin_message : EventType
  bookmark_add bookmark_remove : EventType
  sealed_member_join sealed_member_leave key_rotate sealed_event : EventType
  reserved : ℕ → EventType

unfoldable pub as_u8 : EventType → ℕ
as_u8 server_create = 0
as_u8 server_update = 1
as_u8 channel_create = 2
as_u8 channel_update = 3
as_u8 message_post = 4
as_u8 message_edit = 5
as_u8 message_delete = 6
as_u8 dm_message_post = 7
as_u8 reaction_add = 8
as_u8 reaction_remove = 9
as_u8 member_join = 10
as_u8 member_leave = 11
as_u8 role_assign = 12
as_u8 role_revoke = 13
as_u8 moderation_action = 14
as_u8 device_register = 15
as_u8 device_revoke = 16
as_u8 pin_message = 17
as_u8 unpin_message = 18
as_u8 bookmark_add = 19
as_u8 bookmark_remove = 20
as_u8 sealed_member_join = 23
as_u8 sealed_member_leave = 24
as_u8 key_rotate = 25
as_u8 sealed_event = 26
as_u8 (reserved n) = n

unfoldable pub from_u8 : ℕ → EventType
from_u8 n =
    if n == 0
    then server_create
    else if n == 1
    then server_update
    else if n == 2
    then channel_create
    else if n == 3
    then channel_update
    else if n == 4
    then message_post
    else if n == 5
    then message_edit
    else if n == 6
    then message_delete
    else if n == 7
    then dm_message_post
    else if n == 8
    then reaction_add
    else if n == 9
    then reaction_remove
    else if n == 10
    then member_join
    else if n == 11
    then member_leave
    else if n == 12
    then role_assign
    else if n == 13
    then role_revoke
    else if n == 14
    then moderation_action
    else if n == 15
    then device_register
    else if n == 16
    then device_revoke
    else if n == 17
    then pin_message
    else if n == 18
    then unpin_message
    else if n == 19
    then bookmark_add
    else if n == 20
    then bookmark_remove
    else if n == 23
    then sealed_member_join
    else if n == 24
    then sealed_member_leave
    else if n == 25
    then key_rotate
    else if n == 26
    then sealed_event
    else reserved n

unfoldable pub is_known : EventType → Bool
is_known (reserved n) = false
is_known _ = true

-- `TryFrom<u64>`: the error carries no value.
pub try_from : ℕ → Result (Unit {0}) EventType
try_from value = if ltb value 256 then ok (from_u8 value) else err tt

-- Every discriminant decodes to an event type that writes it again.
pub as_u8-from_u8 : (n : ℕ) → as_u8 (from_u8 n) ≡ n
unfolding as_u8 from_u8
as_u8-from_u8 n = ground arith

-- Decoding an enumerated event type's discriminant gives that type back.
pub from_u8-as_u8 : (t : EventType) → is_known t ≡ true → from_u8 (as_u8 t) ≡ t
unfolding as_u8 from_u8 is_known
from_u8-as_u8 (reserved n) h = cc
from_u8-as_u8 _ h = refl

-- The discriminants of the enumerated types are 0 to 20 and 23 to 26.
pub is_known-from_u8 : (n : ℕ) → is_known (from_u8 n) ≡ (leb n 20 || (leb 23 n && leb n 26))
unfolding is_known from_u8
is_known-from_u8 n = ground arith
