-- ===== src/Cli/Post/Patch.antt =====
-- src/lib.rs: `patch_member_join_leave_pid`, and what `post` does without `--submit`.
use komms_cli.Base.{
  ℕ, List, ◌∷◌, Bool, true, false, Option, none, some, Result, ok, err, ◌>>=◌, map_err, ok_or,
}
use komms_cli.Hex.{FasterHex}
use komms_cli.Protocol.Event.{ParsedKommsEvent}
use komms_cli.Protocol.Ciborium.{Ciborium}
use komms_cli.Protocol.Encode.{encode_komms_payload}
use komms_cli.Protocol.Ids.{participant_id}
use komms_cli.Cli.Addresses.{KaspaAddresses}
use komms_cli.Cli.Post.Commands.{Text, PostCmd}
use komms_cli.Cli.Post.Args.{CliError, no_member_address, bad_address, encode}
use komms_cli.Cli.Post.Build.{build_post_ev}

-- `member_address` of the two commands that have one.
abbrev pub member_address_of : PostCmd → Option (Option Text)
member_address_of (PostCmd.member_join sid member_address ref_hex meta) = some member_address
member_address_of (PostCmd.member_leave sid member_address ref_hex meta) = some member_address
member_address_of _ = none

-- Which address is used: the argument, or with `--submit` the change address.
unfoldable pub member_address : Option Text → Bool → Option Text → Result CliError Text
member_address (some s) submit change_address = ok s
member_address none true change_address = ok_or change_address no_member_address
member_address none false change_address = err no_member_address

module _ (K : KaspaAddresses) (sha256 : List ℕ → List ℕ) where
  unfoldable pub creator_address_body_from_addr : K.Address → List ℕ
  creator_address_body_from_addr addr = K.version addr ∷ K.payload addr

  unfoldable pub patch_member_join_leave_pid :
      {Value : Type 0}
      → ParsedKommsEvent Value
      → PostCmd
      → Bool
      → Option Text
      → Result CliError (ParsedKommsEvent Value)
  patch_member_join_leave_pid ev cmd submit change_address = elim (member_address_of cmd) [
    | none ↦ ok ev
    | some member_address_opt ↦ (do
      addr_str ← member_address member_address_opt submit change_address
      addr ← ok_or (K.try_into addr_str) bad_address
      ok (record ev { pid = some (participant_id sha256 (creator_address_body_from_addr addr)) }))
  ]

  -- The event and its payload. The code encodes the event a second time to print it, by the same call.
  unfoldable pub post :
      (H : FasterHex) (C : Ciborium)
      → PostCmd
      → Bool
      → Option Text
      → Result CliError (ParsedKommsEvent C.Value × List ℕ)
  post H C cmd submit change_address = do
    built ← build_post_ev H cmd
    ev ← patch_member_join_leave_pid built cmd submit change_address
    raw ← map_err encode (encode_komms_payload C ev)
    ok (ev, raw)
