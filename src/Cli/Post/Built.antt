-- ===== src/Cli/Post/Built.antt =====
-- src/lib.rs: what `build_post_ev` returns, for each command.
use komms_cli.Base.{
  ℕ, List, Bool, true, false, Option, none, some, ok, err, ◌>>◌, ◌≡◌, refl, if◌then◌else◌, length,
}
use komms_cli.Protocol.EventType.{EventType, is_known}
use komms_cli.Protocol.Event.{ParsedKommsEvent, missing_for_type}
use komms_cli.Protocol.Ciborium.{Ciborium}
use komms_cli.Protocol.Validate.Guards.{Check, check_ref}
use komms_cli.Protocol.Validate.ByType.{check_type}
use komms_cli.Protocol.Validate.Defs.{validate_event}
use komms_cli.Protocol.Encode.{encode_komms_payload}
use komms_cli.Protocol.RoundTrip.Fields.{IsEncodable}
use komms_cli.Cli.Post.Commands.{OptMeta, PostCmd}
use komms_cli.Cli.Post.Args.{literal}
use komms_cli.Cli.Post.Ensures.{Sized}
use komms_cli.Cli.Post.Literal.{stored, IsMetaU64, literal-IsEncodable, encode-stored, fields_valid}

abbrev pub meta_of : PostCmd → OptMeta
meta_of (PostCmd.server_create sid ref_hex cid_str content_hash meta) = meta
meta_of (PostCmd.server_update sid ref_hex cid_str content_hash meta) = meta
meta_of (PostCmd.channel_create sid cid ref_hex meta) = meta
meta_of (PostCmd.channel_update sid cid ref_hex meta) = meta
meta_of (PostCmd.message_post sid cid ref_hex ref_cid content_hash pid meta) = meta
meta_of (PostCmd.message_edit sid cid mid ref_hex ref_cid content_hash meta) = meta
meta_of (PostCmd.message_delete sid cid mid meta) = meta
meta_of (PostCmd.dm_message_post did ref_hex ref_cid content_hash meta) = meta
meta_of (PostCmd.reaction_add sid cid mid ref_hex meta) = meta
meta_of (PostCmd.reaction_remove sid cid mid ref_hex meta) = meta
meta_of (PostCmd.member_join sid member_address ref_hex meta) = meta
meta_of (PostCmd.member_leave sid member_address ref_hex meta) = meta
meta_of (PostCmd.role_assign sid cid ref_hex meta) = meta
meta_of (PostCmd.role_revoke sid cid ref_hex meta) = meta
meta_of (PostCmd.moderation_action sid cid mid ref_hex meta) = meta

-- The commands whose event gets the participant of an address.
abbrev pub is_member : PostCmd → Bool
is_member (PostCmd.member_join sid member_address ref_hex meta) = true
is_member (PostCmd.member_leave sid member_address ref_hex meta) = true
is_member _ = false

-- A command whose event the arm of its type refuses, whatever the arguments hold.
abbrev pub supplies : PostCmd → Check
supplies (PostCmd.reaction_add sid cid mid none meta) =
    err (missing_for_type EventType.reaction_add "reaction_key|ref")
supplies (PostCmd.reaction_remove sid cid mid none meta) =
    err (missing_for_type EventType.reaction_remove "reaction_key|ref")
supplies (PostCmd.role_assign sid cid ref_hex meta) =
    err (missing_for_type EventType.role_assign "target")
supplies (PostCmd.role_revoke sid cid ref_hex meta) =
    err (missing_for_type EventType.role_revoke "target")
supplies _ = ok tt

module _ {Value : Type 0} (cmd : PostCmd) (p : List ℕ) where
  abbrev pub with_pid : ParsedKommsEvent Value → ParsedKommsEvent Value
  with_pid ev = record ev { pid = if is_member cmd then some p else ev.pid }

pub record IsBuilt (C : Ciborium) (cmd : PostCmd) (ev : ParsedKommsEvent C.Value) : Type 0 where
  pub accepts :
      (p : List ℕ)
      → validate_event (with_pid cmd p ev) ≡ (check_ref ev.ref_bytes none >> supplies cmd)
  pub encodable :
      (p : List ℕ)
      → length p ≡ 32
      → IsMetaU64 (meta_of cmd)
      → IsEncodable (stored (with_pid cmd p ev))
  pub encodes :
      (p : List ℕ)
      → encode_komms_payload C (stored (with_pid cmd p ev))
        ≡ encode_komms_payload C (with_pid cmd p ev)

pid-Sized :
    (b : Bool) (pid : Option (List ℕ)) (p : List ℕ)
    → Sized 32 pid
    → length p ≡ 32
    → Sized 32 (if b then some p else pid)
pid-Sized true pid p h k = k
pid-Sized false pid p h k = h

module _ (C : Ciborium) (cmd : PostCmd) (t : EventType)
    (sid cid did pid mid ref_bytes : Option (List ℕ)) (enc : Bool) (sig : Option (List ℕ)) where
  pub literal-IsBuilt :
      is_known t ≡ true
      → ((p : List ℕ)
          → check_type {Value = C.Value} t
              (with_pid cmd p (literal t sid cid did pid mid ref_bytes enc (meta_of cmd) sig))
            ≡ supplies cmd)
      → Sized 32 sid
      → Sized 32 cid
      → Sized 32 did
      → Sized 32 pid
      → Sized 32 mid
      → Sized 64 sig
      → IsBuilt C cmd (literal t sid cid did pid mid ref_bytes enc (meta_of cmd) sig)
  literal-IsBuilt known arm s c d q m g = record {
    accepts = λ p.
        rw
          (
            fields_valid {Value = C.Value}
                (with_pid cmd p (literal t sid cid did pid mid ref_bytes enc (meta_of cmd) sig))
                refl known refl refl refl refl refl refl,
            arm p,
          )
          refl;
    encodable = λ p h u.
        literal-IsEncodable t known sid cid did (if is_member cmd then some p else pid) mid
          ref_bytes enc (meta_of cmd) sig u s c d (pid-Sized (is_member cmd) pid p q h) m g;
    encodes = λ p.
        encode-stored C t sid cid did (if is_member cmd then some p else pid) mid ref_bytes enc
          (meta_of cmd) sig;
  }
