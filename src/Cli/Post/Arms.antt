-- ===== src/Cli/Post/Arms.antt =====
-- src/lib.rs: what the arms that several commands share return.
use komms_cli.Base.{
  Ensures, Ensures->>=, after_any, ℕ, List, Bool, Result, true, false, Option, none, some, ◌≡◌,
  is_some,
}
use komms_cli.Hex.{FasterHex}
use komms_cli.Protocol.EventType.{EventType, is_known}
use komms_cli.Protocol.Event.{ParsedKommsEvent}
use komms_cli.Protocol.Ciborium.{Ciborium}
use komms_cli.Protocol.Validate.ByType.{check_type}
use komms_cli.Cli.Post.Commands.{Text, PostCmd}
use komms_cli.Cli.Post.Args.{CliError, literal, hex_bytes, ref_from_opts, each_opt}
use komms_cli.Cli.Post.Build.{build_server, build_channel, build_reaction, build_member, build_role}
use komms_cli.Cli.Post.Ensures.{is_some-each_opt, after_z, after_each_z, after_meta_sig}
use komms_cli.Cli.Post.Built.{IsBuilt, with_pid, meta_of, literal-IsBuilt, supplies}

module _ (C : Ciborium) (H : FasterHex) (cmd : PostCmd) (t : EventType)
    (known : is_known t ≡ true) where
  abbrev pub Returns : Result CliError (ParsedKommsEvent C.Value) → Type 0
  Returns r = Ensures (IsBuilt C cmd) r

  -- The arm of the type, on the event that the literal makes.
  abbrev pub Arm :
      Option (List ℕ)
      → Option (List ℕ)
      → Option (List ℕ)
      → Option (List ℕ)
      → Option (List ℕ)
      → Option (List ℕ)
      → Bool
      → Option (List ℕ)
      → Type 0
  Arm sid cid did pid mid r enc g =
      (p : List ℕ)
      → check_type {Value = C.Value} t
          (with_pid cmd p (literal t sid cid did pid mid r enc (meta_of cmd) g))
        ≡ supplies cmd

  pub server_built :
      (sid : Text) (ref_hex cid_str content_hash : Option Text)
      → ((s : List ℕ) (r g : Option (List ℕ)) → Arm (some s) none none none none r false g)
      → Returns (build_server H t sid ref_hex cid_str content_hash (meta_of cmd))
  unfolding build_server
  server_built sid ref_hex cid_str content_hash arm = after_z H (IsBuilt C cmd) sid _ (λ s hs.
      after_any (IsBuilt C cmd) (ref_from_opts H ref_hex cid_str content_hash) _ (λ r.
        after_meta_sig H (IsBuilt C cmd) (meta_of cmd) _ (λ g hg.
          literal-IsBuilt C cmd t (some s) none none none none r false g known (arm s r g) hs tt tt
            tt tt hg)))

  pub channel_built :
      (sid cid : Text) (ref_hex : Option Text)
      → ((s c : List ℕ) (r g : Option (List ℕ)) → Arm (some s) (some c) none none none r false g)
      → Returns (build_channel H t sid cid ref_hex (meta_of cmd))
  unfolding build_channel
  channel_built sid cid ref_hex arm = after_z H (IsBuilt C cmd) sid _ (λ s hs.
      after_z H (IsBuilt C cmd) cid _ (λ c hc.
        after_any (IsBuilt C cmd) (each_opt (hex_bytes H) ref_hex) _ (λ r.
          after_meta_sig H (IsBuilt C cmd) (meta_of cmd) _ (λ g hg.
            literal-IsBuilt C cmd t (some s) (some c) none none none r false g known (arm s c r g)
              hs hc tt tt tt hg))))

  pub reaction_built :
      (sid cid mid : Text) (ref_hex : Option Text)
      → ((s c m : List ℕ) (r g : Option (List ℕ))
          → is_some r ≡ is_some ref_hex
          → Arm (some s) (some c) none none (some m) r false g)
      → Returns (build_reaction H t sid cid mid ref_hex (meta_of cmd))
  unfolding build_reaction
  reaction_built sid cid mid ref_hex arm = after_z H (IsBuilt C cmd) sid _ (λ s hs.
      after_z H (IsBuilt C cmd) cid _ (λ c hc. after_z H (IsBuilt C cmd) mid _ (λ m hm.
        Ensures->>= (λ r. is_some r ≡ is_some ref_hex) (IsBuilt C cmd)
          (each_opt (hex_bytes H) ref_hex) _ (is_some-each_opt (hex_bytes H) ref_hex)
          (λ r hr. after_meta_sig H (IsBuilt C cmd) (meta_of cmd) _ (λ g hg.
            literal-IsBuilt C cmd t (some s) (some c) none none (some m) r false g known
              (arm s c m r g hr) hs hc tt tt hm hg)))))

  pub member_built :
      (sid : Text) (ref_hex : Option Text)
      → ((s : List ℕ) (r g : Option (List ℕ)) → Arm (some s) none none none none r false g)
      → Returns (build_member H t sid ref_hex (meta_of cmd))
  unfolding build_member
  member_built sid ref_hex arm = after_z H (IsBuilt C cmd) sid _ (λ s hs.
      after_any (IsBuilt C cmd) (each_opt (hex_bytes H) ref_hex) _ (λ r.
        after_meta_sig H (IsBuilt C cmd) (meta_of cmd) _ (λ g hg.
          literal-IsBuilt C cmd t (some s) none none none none r false g known (arm s r g) hs tt tt
            tt tt hg)))

  pub role_built :
      (sid : Text) (cid ref_hex : Option Text)
      → ((s : List ℕ) (c r g : Option (List ℕ)) → Arm (some s) c none none none r false g)
      → Returns (build_role H t sid cid ref_hex (meta_of cmd))
  unfolding build_role
  role_built sid cid ref_hex arm = after_z H (IsBuilt C cmd) sid _ (λ s hs.
      after_each_z H (IsBuilt C cmd) cid _ (λ c hc.
        after_any (IsBuilt C cmd) (each_opt (hex_bytes H) ref_hex) _ (λ r.
          after_meta_sig H (IsBuilt C cmd) (meta_of cmd) _ (λ g hg.
            literal-IsBuilt C cmd t (some s) c none none none r false g known (arm s c r g) hs hc tt
              tt tt hg))))
