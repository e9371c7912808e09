-- ===== src/Examples/Run.antt =====
-- The commands as `run` runs them, with the toys of the other examples.
use komms_cli.Base.{
  all_bytes_sound, ℕ, suc, [], ◌∷◌, Bool, true, false, none, some, ok, ◌≡◌, ◌↔◌, ◌%◌, refl, length,
  All, IsByte, to_be_bytes, to_le_bytes, from_be_bytes, ascii, arith, trim, skip_space, space_front,
  space_back,
}
use komms_cli.Protocol.EventType.{as_u8}
use komms_cli.Protocol.Encode.{
  event_value, event_fields, pushed, v0_slots, v1_slots, v1_1_slots, role_slots,
}
use komms_cli.Protocol.Ids.{participant_id, sha256_domain, concat, ref_from_content_hash}
use komms_cli.Canonical.Grammar.{head, arg_code, arg_bytes}
use komms_cli.Canonical.Walk.{read_u8, read_argument, read_be, shortest}
use komms_cli.Cli.Client.{connected, make_client, connect_rpc, network_id_for_cli}
use komms_cli.Cli.Network.{NetworkArg, into}
use komms_cli.Cli.Commands.{Commands, PostArgs, ReadCmd}
use komms_cli.Cli.Hexutil.{parse_hex_bytes, bare, strip_0x}
use komms_cli.Cli.Id.{Secp256k1}
use komms_cli.Cli.Post.Patch.{
  member_address, creator_address_body_from_addr, patch_member_join_leave_pid, post,
}
use komms_cli.Cli.Post.Literal.{stored}
use komms_cli.Cli.Post.Laws.{post_writes}
use komms_cli.Cli.Run.{World, run, print_json}
use komms_cli.Cli.Run.Laws.{
  event_json, printed, strictly, submitted, fetching_strictly, Crates, run-decode-post,
  run-read-post,
}
use komms_cli.Cli.Run.Content.{verdict, run-verify_content}
use komms_cli.Examples.Cbor.{codec, codec-Writes, read, write, read_value, read_major, read_pairs}
use komms_cli.Examples.Hex.{hexer, of_hex, value}
use komms_cli.Examples.Json.{json, string}
use komms_cli.Examples.Payload.{repeat}
use komms_cli.Examples.Read.{ed25519}
use komms_cli.Examples.Post.{
  sha256, join, joined, changed, raw_changed, built_lem, ref_lem, stored-Fits,
}
use komms_cli.Examples.Submit.{node, key_hex}
use komms_cli.Examples.Broadcast
use komms_cli.Examples.Broadcast.{change, broadcast}

abbrev pub keys : Secp256k1
keys = record {
  SecretKey = ℕ;
  secret_bytes = λ k. repeat 32 7;
  x_only_public_key = λ k. repeat 32 8;
  drawn = 5;
}

-- Every file holds three bytes.
abbrev pub world : World
world = record {
  serde = json;
  hex = hexer;
  ciborium = codec;
  ed25519 = ed25519;
  kaspa = node;
  secp256k1 = keys;
  sha256 = sha256;
  debug_t = λ t. [];
  debug_cbor = λ v. [];
  display = λ e. [];
  from_bytes = λ b. none;
  from_bytes_v1 = λ b. none;
  has_submit = true;
  stdin = [];
  read_file = λ path. some (1 ∷ 2 ∷ 3 ∷ []);
  open_partition = λ path. none;
}

written_bytes : All IsByte (write (event_value codec changed))
unfolding write event_value event_fields pushed v0_slots v1_slots v1_1_slots role_slots as_u8 head
    arg_code arg_bytes to_be_bytes to_le_bytes
written_bytes = all_bytes_sound (write (event_value codec changed)) refl

abbrev args : Bool → PostArgs
args submit = record {
  cmd = join;
  pretty = false;
  submit = submit;
  rpc_url = none;
  network = none;
  change_address = change;
  private_key_hex = some key_hex;
  priority_fee = 0;
}

size-repeat : (n b : ℕ) → length (repeat n b) ≡ n
size-repeat ℕ.zero b = refl
size-repeat (suc n) b = omega (arith, size-repeat n b)

crates : Crates world changed
crates = record {
  digest = λ m. size-repeat 32 (length m % 256);
  bytes = written_bytes;
  writes = codec-Writes;
}

read-stored :
    read (write (event_value codec (stored changed))) ≡ ok (event_value codec (stored changed))
unfolding read read_value read_major read_pairs write event_value event_fields pushed v0_slots
    v1_slots v1_1_slots role_slots as_u8 head arg_code arg_bytes read_u8 read_argument read_be
    shortest to_be_bytes to_le_bytes from_be_bytes
read-stored = refl

patched_lem :
    patch_member_join_leave_pid node.addresses sha256 joined join false change ≡ ok changed
unfolding patch_member_join_leave_pid member_address creator_address_body_from_addr participant_id
    sha256_domain concat
patched_lem = refl

posted : post node.addresses sha256 hexer codec join false change ≡ ok (changed, raw_changed)
posted =
    post_writes node.addresses sha256 codec hexer join false change joined changed built_lem
      patched_lem ref_lem refl

run-decode-post_example :
    (run world (Commands.post (args false))
      ≡ print_json world (printed world changed raw_changed) false)
    × (run world (Commands.decode (strictly world (hexer.hex_string raw_changed) true))
        ≡ print_json world (event_json world changed) true)
run-decode-post_example =
    run-decode-post world changed crates (args false) (omega arith, omega arith) raw_changed
      (stored-Fits (some (repeat 32 22))) read-stored true refl posted

on_network : connected node.rpc none (into NetworkArg.mainnet) ≡ ok 0
unfolding connected make_client connect_rpc network_id_for_cli into
on_network = refl

run-read-post_example :
    (run world (Commands.post (args true))
      ≡ print_json world (submitted world raw_changed (repeat 32 7)) false)
    × (run world (
          Commands.read
            (ReadCmd.tx (fetching_strictly world (repeat 32 7) none NetworkArg.mainnet))
            true)
        ≡ print_json world
            (json.set (event_json world changed) "txid" (string (hexer.hex_string (repeat 32 7))))
            true)
run-read-post_example =
    run-read-post world changed crates (args true) (omega arith, omega arith) raw_changed
      (stored-Fits (some (repeat 32 22))) read-stored true (repeat 32 7) none NetworkArg.mainnet 0
      refl refl Broadcast.posted broadcast refl refl (all_bytes_sound (repeat 32 7) refl) on_network
      raw_changed refl refl

read_hex : parse_hex_bytes hexer (repeat 64 97) ≡ ok (repeat 32 170)
unfolding parse_hex_bytes bare strip_0x trim skip_space space_front space_back of_hex value
read_hex = refl

run-verify_content_example :
    (matches : Bool) × (run world (Commands.verify_content (ascii "f") (repeat 64 97) false)
      ≡ print_json world (verdict world (1 ∷ 2 ∷ 3 ∷ []) (repeat 64 97) matches) false)
    × ((matches ≡ true) ↔ (repeat 32 170 ≡ ref_from_content_hash (repeat 32 3)))
run-verify_content_example =
    run-verify_content world (ascii "f") false (1 ∷ 2 ∷ 3 ∷ []) refl refl
      (all_bytes_sound (repeat 32 3) refl) (repeat 64 97) (repeat 32 170) read_hex
