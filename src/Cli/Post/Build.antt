-- ===== src/Cli/Post/Build.antt =====
-- src/lib.rs: `build_post_ev`.
use komms_cli.Base.{true, false, Option, none, some, Result, ok, ◌>>=◌, ok_or}
use komms_cli.Hex.{FasterHex}
use komms_cli.Protocol.EventType.{EventType}
use komms_cli.Protocol.Event.{ParsedKommsEvent}
use komms_cli.Cli.Post.Commands.{Text, OptMeta, PostCmd}
use komms_cli.Cli.Post.Args.{
  CliError, needs_ref, each_opt, literal, z, hex_bytes, ref_from_opts, meta_sig, hex_bytes,
}

module _ (H : FasterHex) where
  module _ {Value : Type 0} where
    unfoldable pub build_server :
        EventType
        → Text
        → Option Text
        → Option Text
        → Option Text
        → OptMeta
        → Result CliError (ParsedKommsEvent Value)
    build_server t sid ref_hex cid_str content_hash meta = do
      s ← z H sid
      r ← ref_from_opts H ref_hex cid_str content_hash
      g ← meta_sig H meta
      ok (literal t (some s) none none none none r false meta g)

    unfoldable pub build_channel :
        EventType → Text → Text → Option Text → OptMeta → Result CliError (ParsedKommsEvent Value)
    build_channel t sid cid ref_hex meta = do
      s ← z H sid
      c ← z H cid
      r ← each_opt (hex_bytes H) ref_hex
      g ← meta_sig H meta
      ok (literal t (some s) (some c) none none none r false meta g)

    unfoldable pub build_reaction :
        EventType
        → Text
        → Text
        → Text
        → Option Text
        → OptMeta
        → Result CliError (ParsedKommsEvent Value)
    build_reaction t sid cid mid ref_hex meta = do
      s ← z H sid
      c ← z H cid
      m ← z H mid
      r ← each_opt (hex_bytes H) ref_hex
      g ← meta_sig H meta
      ok (literal t (some s) (some c) none none (some m) r false meta g)

    unfoldable pub build_member :
        EventType → Text → Option Text → OptMeta → Result CliError (ParsedKommsEvent Value)
    build_member t sid ref_hex meta = do
      s ← z H sid
      r ← each_opt (hex_bytes H) ref_hex
      g ← meta_sig H meta
      ok (literal t (some s) none none none none r false meta g)

    unfoldable pub build_role :
        EventType
        → Text
        → Option Text
        → Option Text
        → OptMeta
        → Result CliError (ParsedKommsEvent Value)
    build_role t sid cid ref_hex meta = do
      s ← z H sid
      c ← each_opt (z H) cid
      r ← each_opt (hex_bytes H) ref_hex
      g ← meta_sig H meta
      ok (literal t (some s) c none none none r false meta g)

    unfoldable pub build_post_ev : PostCmd → Result CliError (ParsedKommsEvent Value)
    build_post_ev (PostCmd.server_create sid ref_hex cid_str content_hash meta) =
        build_server EventType.server_create sid ref_hex cid_str content_hash meta
    build_post_ev (PostCmd.server_update sid ref_hex cid_str content_hash meta) =
        build_server EventType.server_update sid ref_hex cid_str content_hash meta
    build_post_ev (PostCmd.channel_create sid cid ref_hex meta) =
        build_channel EventType.channel_create sid cid ref_hex meta
    build_post_ev (PostCmd.channel_update sid cid ref_hex meta) =
        build_channel EventType.channel_update sid cid ref_hex meta
    build_post_ev (PostCmd.message_post sid cid ref_hex ref_cid content_hash pid meta) = do
      s ← z H sid
      c ← z H cid
      p ← each_opt (z H) pid
      r ← ref_from_opts H ref_hex ref_cid content_hash
      r' ← ok_or r (needs_ref "message-post needs ref")
      g ← meta_sig H meta
      ok (literal EventType.message_post (some s) (some c) none p none (some r') false meta g)
    build_post_ev (PostCmd.message_edit sid cid mid ref_hex ref_cid content_hash meta) = do
      s ← z H sid
      c ← z H cid
      m ← z H mid
      r ← ref_from_opts H ref_hex ref_cid content_hash
      r' ← ok_or r (needs_ref "message-edit needs ref")
      g ← meta_sig H meta
      ok (
          literal EventType.message_edit (some s) (some c) none none (some m) (some r') false meta
            g)
    build_post_ev (PostCmd.message_delete sid cid mid meta) = do
      s ← z H sid
      c ← z H cid
      m ← z H mid
      g ← meta_sig H meta
      ok (literal EventType.message_delete (some s) (some c) none none (some m) none false meta g)
    build_post_ev (PostCmd.dm_message_post did ref_hex ref_cid content_hash meta) = do
      d ← z H did
      r ← ref_from_opts H ref_hex ref_cid content_hash
      r' ← ok_or r (needs_ref "dm-message-post needs ref")
      g ← meta_sig H meta
      ok (literal EventType.dm_message_post none none (some d) none none (some r') true meta g)
    build_post_ev (PostCmd.reaction_add sid cid mid ref_hex meta) =
        build_reaction EventType.reaction_add sid cid mid ref_hex meta
    build_post_ev (PostCmd.reaction_remove sid cid mid ref_hex meta) =
        build_reaction EventType.reaction_remove sid cid mid ref_hex meta
    build_post_ev (PostCmd.member_join sid member_address ref_hex meta) =
        build_member EventType.member_join sid ref_hex meta
    build_post_ev (PostCmd.member_leave sid member_address ref_hex meta) =
        build_member EventType.member_leave sid ref_hex meta
    build_post_ev (PostCmd.role_assign sid cid ref_hex meta) =
        build_role EventType.role_assign sid cid ref_hex meta
    build_post_ev (PostCmd.role_revoke sid cid ref_hex meta) =
        build_role EventType.role_revoke sid cid ref_hex meta
    build_post_ev (PostCmd.moderation_action sid cid mid ref_hex meta) = do
      s ← z H sid
      c ← each_opt (z H) cid
      m ← each_opt (z H) mid
      r ← each_opt (hex_bytes H) ref_hex
      g ← meta_sig H meta
      ok (literal EventType.moderation_action (some s) c none none m r false meta g)
