-- ===== src/Cli/Post/Returned.antt =====
-- src/lib.rs: `build_post_ev` returns an event of its command.
use komms_cli.Base.{Ensures, after_any, true, false, none, some, refl, ok_or}
use komms_cli.Hex.{FasterHex}
use komms_cli.Protocol.EventType.{EventType, is_known}
use komms_cli.Protocol.Ciborium.{Ciborium}
use komms_cli.Protocol.Validate.Guards.{group_encrypted}
use komms_cli.Protocol.Validate.ByType.{
  check_type, check_server, check_channel, check_message_post, check_message_edit,
  check_message_mark, check_dm_message_post, check_reaction, check_member, check_role_assign,
  check_role_revoke, check_moderation, has_sid, has_cid, has_ref, plaintext_enc_misuse,
}
use komms_cli.Cli.Post.Commands.{PostCmd}
use komms_cli.Cli.Post.Args.{ref_from_opts, each_opt, hex_bytes, needs_ref}
use komms_cli.Cli.Post.Build.{build_post_ev}
use komms_cli.Cli.Post.Ensures.{after_z, after_each_z, after_meta_sig}
use komms_cli.Cli.Post.Built.{IsBuilt, literal-IsBuilt}
use komms_cli.Cli.Post.Arms.{server_built, channel_built, reaction_built, member_built, role_built}

module _ (C : Ciborium) (H : FasterHex) where
  pub build_post_ev-IsBuilt : (cmd : PostCmd) → Ensures (IsBuilt C cmd) (build_post_ev H cmd)
  unfolding build_post_ev check_type check_server check_channel check_message_post
      check_message_edit check_message_mark check_dm_message_post check_reaction check_member
      check_role_assign check_role_revoke check_moderation has_sid has_cid has_ref
      plaintext_enc_misuse group_encrypted is_known
  build_post_ev-IsBuilt (PostCmd.server_create sid ref_hex cid_str content_hash meta) =
      server_built C H (PostCmd.server_create sid ref_hex cid_str content_hash meta)
        EventType.server_create refl sid ref_hex cid_str content_hash (λ s r g p. refl)
  build_post_ev-IsBuilt (PostCmd.server_update sid ref_hex cid_str content_hash meta) =
      server_built C H (PostCmd.server_update sid ref_hex cid_str content_hash meta)
        EventType.server_update refl sid ref_hex cid_str content_hash (λ s r g p. refl)
  build_post_ev-IsBuilt (PostCmd.channel_create sid cid ref_hex meta) =
      channel_built C H (PostCmd.channel_create sid cid ref_hex meta) EventType.channel_create refl
        sid cid ref_hex (λ s c r g p. refl)
  build_post_ev-IsBuilt (PostCmd.channel_update sid cid ref_hex meta) =
      channel_built C H (PostCmd.channel_update sid cid ref_hex meta) EventType.channel_update refl
        sid cid ref_hex (λ s c r g p. refl)
  build_post_ev-IsBuilt (PostCmd.message_post sid cid ref_hex ref_cid content_hash pid meta) =
      let cmd = PostCmd.message_post sid cid ref_hex ref_cid content_hash pid meta in
      after_z H (IsBuilt C cmd) sid _ (λ s hs. after_z H (IsBuilt C cmd) cid _ (λ c hc.
        after_each_z H (IsBuilt C cmd) pid _ (λ q hq.
          after_any (IsBuilt C cmd) (ref_from_opts H ref_hex ref_cid content_hash) _ (λ o.
            after_any (IsBuilt C cmd) (ok_or o (needs_ref "message-post needs ref")) _ (λ r.
              after_meta_sig H (IsBuilt C cmd) meta _ (λ g hg.
                literal-IsBuilt C cmd EventType.message_post (some s) (some c) none q none (some r)
                  false g refl (λ p. refl) hs hc tt hq tt hg))))))
  build_post_ev-IsBuilt (PostCmd.message_edit sid cid mid ref_hex ref_cid content_hash meta) =
      let cmd = PostCmd.message_edit sid cid mid ref_hex ref_cid content_hash meta in
      after_z H (IsBuilt C cmd) sid _ (λ s hs. after_z H (IsBuilt C cmd) cid _ (λ c hc.
        after_z H (IsBuilt C cmd) mid _ (λ m hm.
          after_any (IsBuilt C cmd) (ref_from_opts H ref_hex ref_cid content_hash) _ (λ o.
            after_any (IsBuilt C cmd) (ok_or o (needs_ref "message-edit needs ref")) _ (λ r.
              after_meta_sig H (IsBuilt C cmd) meta _ (λ g hg.
                literal-IsBuilt C cmd EventType.message_edit (some s) (some c) none none (some m)
                  (some r) false g refl (λ p. refl) hs hc tt tt hm hg))))))
  build_post_ev-IsBuilt (PostCmd.message_delete sid cid mid meta) =
      let cmd = PostCmd.message_delete sid cid mid meta in
      after_z H (IsBuilt C cmd) sid _ (λ s hs. after_z H (IsBuilt C cmd) cid _ (λ c hc.
        after_z H (IsBuilt C cmd) mid _ (λ m hm. after_meta_sig H (IsBuilt C cmd) meta _ (λ g hg.
          literal-IsBuilt C cmd EventType.message_delete (some s) (some c) none none (some m) none
            false g refl (λ p. refl) hs hc tt tt hm hg))))
  build_post_ev-IsBuilt (PostCmd.dm_message_post did ref_hex ref_cid content_hash meta) =
      let cmd = PostCmd.dm_message_post did ref_hex ref_cid content_hash meta in
      after_z H (IsBuilt C cmd) did _ (λ d hd.
        after_any (IsBuilt C cmd) (ref_from_opts H ref_hex ref_cid content_hash) _ (λ o.
          after_any (IsBuilt C cmd) (ok_or o (needs_ref "dm-message-post needs ref")) _ (λ r.
            after_meta_sig H (IsBuilt C cmd) meta _ (λ g hg.
              literal-IsBuilt C cmd EventType.dm_message_post none none (some d) none none (some r)
                true g refl (λ p. refl) tt tt hd tt tt hg))))
  build_post_ev-IsBuilt (PostCmd.reaction_add sid cid mid none meta) =
      reaction_built C H (PostCmd.reaction_add sid cid mid none meta) EventType.reaction_add refl
        sid cid mid none (λ s c m r g h p. rw h refl)
  build_post_ev-IsBuilt (PostCmd.reaction_add sid cid mid (some ref_hex) meta) =
      reaction_built C H (PostCmd.reaction_add sid cid mid (some ref_hex) meta)
        EventType.reaction_add refl sid cid mid (some ref_hex) (λ s c m r g h p. rw h refl)
  build_post_ev-IsBuilt (PostCmd.reaction_remove sid cid mid none meta) =
      reaction_built C H (PostCmd.reaction_remove sid cid mid none meta) EventType.reaction_remove
        refl sid cid mid none (λ s c m r g h p. rw h refl)
  build_post_ev-IsBuilt (PostCmd.reaction_remove sid cid mid (some ref_hex) meta) =
      reaction_built C H (PostCmd.reaction_remove sid cid mid (some ref_hex) meta)
        EventType.reaction_remove refl sid cid mid (some ref_hex) (λ s c m r g h p. rw h refl)
  build_post_ev-IsBuilt (PostCmd.member_join sid member_address ref_hex meta) =
      member_built C H (PostCmd.member_join sid member_address ref_hex meta) EventType.member_join
        refl sid ref_hex (λ s r g p. refl)
  build_post_ev-IsBuilt (PostCmd.member_leave sid member_address ref_hex meta) =
      member_built C H (PostCmd.member_leave sid member_address ref_hex meta) EventType.member_leave
        refl sid ref_hex (λ s r g p. refl)
  build_post_ev-IsBuilt (PostCmd.role_assign sid cid ref_hex meta) =
      role_built C H (PostCmd.role_assign sid cid ref_hex meta) EventType.role_assign refl sid cid
        ref_hex (λ s c r g p. refl)
  build_post_ev-IsBuilt (PostCmd.role_revoke sid cid ref_hex meta) =
      role_built C H (PostCmd.role_revoke sid cid ref_hex meta) EventType.role_revoke refl sid cid
        ref_hex (λ s c r g p. refl)
  build_post_ev-IsBuilt (PostCmd.moderation_action sid cid mid ref_hex meta) =
      let cmd = PostCmd.moderation_action sid cid mid ref_hex meta in
      after_z H (IsBuilt C cmd) sid _ (λ s hs. after_each_z H (IsBuilt C cmd) cid _ (λ c hc.
        after_each_z H (IsBuilt C cmd) mid _ (λ m hm.
          after_any (IsBuilt C cmd) (each_opt (hex_bytes H) ref_hex) _ (λ r.
            after_meta_sig H (IsBuilt C cmd) meta _ (λ g hg.
              literal-IsBuilt C cmd EventType.moderation_action (some s) c none none m r false g
                refl (λ p. refl) hs hc tt tt hm hg)))))
