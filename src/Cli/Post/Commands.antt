-- ===== src/Cli/Post/Commands.antt =====
-- src/lib.rs: the arguments of `post`. A text is the list of its UTF-8 bytes.
use komms_cli.Base.{ℕ, List, Option}

abbrev pub Text : Type 0
Text = List ℕ

pub record OptMeta : Type 0 where
  pub ts : Option ℕ
  pub n : Option ℕ
  pub sig_hex : Option Text

-- Of the arguments in the order of the source: `sid`, `ref_hex`, `cid_str` and `content_hash`; `sid`, `cid`
-- and `ref_hex`; and so on. The last is `meta`.
pub data PostCmd : Type 0 where
  -- sid, ref_hex, cid_str, content_hash
  server_create server_update : Text → Option Text → Option Text → Option Text → OptMeta → PostCmd
  -- sid, cid, ref_hex
  channel_create channel_update : Text → Text → Option Text → OptMeta → PostCmd
  -- sid, cid, ref_hex, ref_cid, content_hash, pid
  message_post :
      Text → Text → Option Text → Option Text → Option Text → Option Text → OptMeta → PostCmd
  -- sid, cid, mid, ref_hex, ref_cid, content_hash
  message_edit : Text → Text → Text → Option Text → Option Text → Option Text → OptMeta → PostCmd
  -- sid, cid, mid
  message_delete : Text → Text → Text → OptMeta → PostCmd
  -- did, ref_hex, ref_cid, content_hash
  dm_message_post : Text → Option Text → Option Text → Option Text → OptMeta → PostCmd
  -- sid, cid, mid, ref_hex
  reaction_add reaction_remove : Text → Text → Text → Option Text → OptMeta → PostCmd
  -- sid, member_address, ref_hex
  member_join member_leave : Text → Option Text → Option Text → OptMeta → PostCmd
  -- sid, cid, ref_hex
  role_assign role_revoke : Text → Option Text → Option Text → OptMeta → PostCmd
  -- sid, cid, mid, ref_hex
  moderation_action : Text → Option Text → Option Text → Option Text → OptMeta → PostCmd
