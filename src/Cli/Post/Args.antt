-- ===== src/Cli/Post/Args.antt =====
-- src/lib.rs: how `post` reads its arguments, and the struct literals of its events.
use komms_cli.Base.{
  ℕ, ◌+◌, List, String, Bool, not, Option, none, some, Result, ok, ◌>>=◌, ◌>>◌, map_err, guard, ltb,
}
use komms_cli.Hex.{FasterHex}
use komms_cli.Protocol.EventType.{EventType}
use komms_cli.Protocol.Event.{ParsedKommsEvent, ValidationError}
use komms_cli.Protocol.Parse.Pop.{default_event}
use komms_cli.Protocol.Ids.{RefBuildError, ref_from_cid_str, ref_from_content_hash}
use komms_cli.Cli.Hexutil.{HexError, parse_hex32, parse_hex_bytes, parse_hex64_sig}
use komms_cli.Cli.Post.Commands.{Text, OptMeta}

pub data CliError : Type 0 where
  hex : HexError → CliError
  ref_build : RefBuildError → CliError
  several_refs no_member_address bad_address : CliError
  needs_ref : String → CliError
  encode : ValidationError → CliError

-- `opt.as_ref().map(f).transpose()?`
unfoldable pub each_opt :
    {A : Type 0} → (Text → Result CliError A) → Option Text → Result CliError (Option A)
each_opt f none = ok none
each_opt f (some s) = do a ← f s; ok (some a)

abbrev pub count_some : Option Text → ℕ
count_some none = 0
count_some (some s) = 1

-- The struct literals: the fields in their order, `v: 0` and `..Default::default()`.
abbrev pub literal :
    {Value : Type 0}
    → EventType
    → Option (List ℕ)
    → Option (List ℕ)
    → Option (List ℕ)
    → Option (List ℕ)
    → Option (List ℕ)
    → Option (List ℕ)
    → Bool
    → OptMeta
    → Option (List ℕ)
    → ParsedKommsEvent Value
literal t sid cid did pid mid ref_bytes enc meta sig = record default_event {
  v = 0;
  t = t;
  sid = sid;
  cid = cid;
  did = did;
  pid = pid;
  mid = mid;
  ref_bytes = ref_bytes;
  enc = enc;
  ts = meta.ts;
  n = meta.n;
  sig = sig;
}

module _ (H : FasterHex) where
  -- The closure `z`, and the other readers, with the error of the command line.
  unfoldable pub z : Text → Result CliError (List ℕ)
  z s = map_err hex (parse_hex32 H s)

  unfoldable pub hex_bytes : Text → Result CliError (List ℕ)
  hex_bytes s = map_err hex (parse_hex_bytes H s)

  unfoldable pub first_ref :
      Option Text → Option Text → Option Text → Result CliError (Option (List ℕ))
  first_ref (some h) cid_str content_hash = do r ← hex_bytes h; ok (some r)
  first_ref none (some c) content_hash = do r ← map_err ref_build (ref_from_cid_str c); ok (some r)
  first_ref none none (some h) = do b ← z h; ok (some (ref_from_content_hash b))
  first_ref none none none = ok none

  unfoldable pub ref_from_opts :
      Option Text → Option Text → Option Text → Result CliError (Option (List ℕ))
  ref_from_opts ref_hex cid_str content_hash = do
    guard (not (ltb 1 (count_some ref_hex + count_some cid_str + count_some content_hash)))
        several_refs
    first_ref ref_hex cid_str content_hash

  unfoldable pub meta_sig : OptMeta → Result CliError (Option (List ℕ))
  meta_sig m = each_opt (λ h. map_err hex (parse_hex64_sig H h)) m.sig_hex
