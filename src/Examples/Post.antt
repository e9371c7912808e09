-- ===== src/Examples/Post.antt =====
-- The commands `post` and `decode`, with toys of the crates.
use komms_cli.Base.{
  ℕ, zero, suc, ◌%◌, ◌≡◌, refl, List, ◌∷◌, false, Option, none, some, ok, length, trim, skip_space,
  space_front, space_back, ascii, arith, to_be_bytes, to_le_bytes, from_be_bytes,
}
use komms_cli.Protocol.EventType.{EventType, as_u8}
use komms_cli.Protocol.Event.{ParsedKommsEvent}
use komms_cli.Protocol.Validate.Guards.{check_ref}
use komms_cli.Protocol.Encode.{
  event_value, event_fields, pushed, v0_slots, v1_slots, v1_1_slots, role_slots,
}
use komms_cli.Protocol.Payload.{parse_komms_payload}
use komms_cli.Protocol.Ids.{participant_id, sha256_domain, concat}
use komms_cli.Protocol.RoundTrip.Written.{Fits}
use komms_cli.Canonical.Grammar.{head, arg_code, arg_bytes}
use komms_cli.Canonical.Walk.{read_u8, read_argument, read_be, shortest}
use komms_cli.Cli.Hexutil.{parse_hex32, bare, strip_0x}
use komms_cli.Cli.Post.Commands.{PostCmd}
use komms_cli.Cli.Addresses.{KaspaAddresses}
use komms_cli.Cli.Post.Args.{each_opt, z, meta_sig, literal}
use komms_cli.Cli.Post.Build.{build_member, build_post_ev}
use komms_cli.Cli.Post.Patch.{
  member_address, creator_address_body_from_addr, patch_member_join_leave_pid, post,
}
use komms_cli.Cli.Post.Literal.{stored}
use komms_cli.Cli.Post.Built.{supplies}
use komms_cli.Cli.Post.Laws.{post_writes, post_refuses, parse-post}
use komms_cli.Examples.Cbor.{
  codec, codec-Writes, CborValue, read, write, read_value, read_major, read_pairs,
}
use komms_cli.Examples.Hex.{hexer, of_hex, value}
use komms_cli.Examples.Payload.{repeat}

abbrev pub sha256 : List ℕ → List ℕ
sha256 m = repeat 32 (length m % 256)

abbrev pub addresses : KaspaAddresses
addresses = record {
  Address = List ℕ;
  try_into = λ s. some s;
  version = λ a. 0;
  payload = λ a. a;
  version_pub_key = 0;
  new = λ prefix version body. body;
  to_string = λ a. a;
}

-- `post member-join`, with an address of seven bytes.
abbrev pub join : PostCmd
join =
    PostCmd.member_join (repeat 64 97) (some (ascii "kaspa:q")) none
      (record { ts = some 1700000000; n = some 5; sig_hex = none })

abbrev pub joined : ParsedKommsEvent CborValue
joined =
    literal EventType.member_join (some (repeat 32 170)) none none none none none false
      (record { ts = some 1700000000; n = some 5; sig_hex = none }) none

abbrev pub joining : ParsedKommsEvent CborValue
joining = record joined { pid = some (repeat 32 28) }

-- The member whose address is the change address, and the payload.
abbrev pub changed : ParsedKommsEvent CborValue
changed = record joined { pid = some (repeat 32 22) }

abbrev pub raw_changed : List ℕ
raw_changed = 0x4B ∷ 0x4F ∷ 0x4D ∷ 0x4D ∷ write (event_value codec changed)

pub built_lem : build_post_ev hexer {Value = CborValue} join ≡ ok joined
unfolding build_post_ev build_member z parse_hex32 bare strip_0x trim skip_space space_front
    space_back of_hex value each_opt meta_sig
built_lem = refl

patched_lem : patch_member_join_leave_pid addresses sha256 joined join false none ≡ ok joining
unfolding patch_member_join_leave_pid member_address creator_address_body_from_addr participant_id
    sha256_domain concat
patched_lem = refl

pub ref_lem : check_ref joining.ref_bytes none ≡ ok tt
unfolding check_ref
ref_lem = refl

abbrev pub raw_joining : List ℕ
raw_joining = 0x4B ∷ 0x4F ∷ 0x4D ∷ 0x4D ∷ write (event_value codec joining)

pub posted : post addresses sha256 hexer codec join false none ≡ ok (joining, raw_joining)
posted =
    post_writes addresses sha256 codec hexer join false none joined joining built_lem patched_lem
      ref_lem refl

post_writes_example : post addresses sha256 hexer codec join false none ≡ ok (joining, raw_joining)
post_writes_example =
    post_writes addresses sha256 codec hexer join false none joined joining built_lem patched_lem
      ref_lem refl

post_refuses_example : supplies join ≡ ok tt
post_refuses_example =
    post_refuses addresses sha256 codec hexer join false none joining raw_joining posted

size-repeat : (n b : ℕ) → length (repeat n b) ≡ n
size-repeat zero b = refl
size-repeat (suc n) b = omega (arith, size-repeat n b)

pub stored-Fits : (pid : Option (List ℕ)) → Fits codec (stored (record joined { pid = pid }))
stored-Fits pid = record {
  ref_bytes_fits = tt;
  mime_fits = tt;
  reaction_key_fits = tt;
  payment_hint_fits = tt;
  member_sealed_fits = tt;
  enc_sid_fits = tt;
  enc_cid_fits = tt;
  enc_body_ref_fits = tt;
  enc_parent_mid_fits = tt;
  enc_t_fits = tt;
  sealed_signer_fits = tt;
  target_fits = tt;
  extension_writes = tt;
}

read-stored :
    read (write (event_value codec (stored joining))) ≡ ok (event_value codec (stored joining))
unfolding read read_value read_major read_pairs write event_value event_fields pushed v0_slots
    v1_slots v1_1_slots role_slots as_u8 head arg_code arg_bytes read_u8 read_argument read_be
    shortest to_be_bytes to_le_bytes from_be_bytes
read-stored = refl

parse-post_example : parse_komms_payload codec raw_joining ≡ ok (stored joining)
parse-post_example =
    parse-post addresses sha256 codec hexer join false none codec-Writes
      (λ m. size-repeat 32 (length m % 256)) (omega arith, omega arith) joining raw_joining
      (stored-Fits (some (repeat 32 28))) read-stored posted
