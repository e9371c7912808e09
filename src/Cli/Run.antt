-- ===== src/Cli/Run.antt =====
-- src/lib.rs: `run` and `print_json`; src/main.rs calls `run`. What a command prints is the result.
pub mod Laws
pub mod Content
pub mod Signed
use komms_cli.Base.{
  ℕ, List, [], ◌∷◌, ◌++◌, Bool, true, false, Option, none, some, Result, ok, err, ◌>>=◌, map_err,
  ok_or, if◌then◌else◌,
}
use komms_cli.Hex.{FasterHex}
use komms_cli.Protocol.EventType.{EventType}
use komms_cli.Protocol.Event.{ValidationError}
use komms_cli.Protocol.Ciborium.{Ciborium}
use komms_cli.Protocol.Verify.{Ed25519}
use komms_cli.Cli.Hexutil.{HexError, parse_hex32}
use komms_cli.Cli.Output.{SerdeJson, event_to_json}
use komms_cli.Cli.Client.{ClientError, connected}
use komms_cli.Cli.Network.{into}
use komms_cli.Cli.Commands.{Commands, PostArgs, TxArgs, IndexArgs, DecodeArgs, ReadCmd}
use komms_cli.Cli.Decode.{DecodeError, load_input_bytes, decode_payload}
use komms_cli.Cli.Id.{IdError, Secp256k1, id_json, ref_inspect, verify_content}
use komms_cli.Cli.ReadRpc.{FetchError, fetch_transaction_payload}
use komms_cli.Cli.IndexScan.{KommsEventRecord, KommsEventRecordV1, IndexError, read_index}
use komms_cli.Cli.Post.Commands.{Text}
use komms_cli.Cli.Post.Args.{CliError}
use komms_cli.Cli.Post.Patch.{post}
use komms_cli.Cli.Submit.Transaction.{Kaspa}
use komms_cli.Cli.Broadcast.{PostError, post_submit}

-- What the program is linked with and runs in: the crates, the build feature `submit`, standard input, the
-- files, and the items of the indexer's partition by directory. `debug_t` is the derived `Debug` of `EventType`,
-- `debug_cbor` that of `ciborium::Value`, `display` the text of a validation error.
pub record World : Type 1 where
  pub serde : SerdeJson
  pub hex : FasterHex
  pub ciborium : Ciborium
  pub ed25519 : Ed25519
  pub kaspa : Kaspa
  pub secp256k1 : Secp256k1
  pub sha256 : List ℕ → List ℕ
  pub debug_t : EventType → List ℕ
  pub debug_cbor : ciborium.Value → List ℕ
  pub display : ValidationError → List ℕ
  pub from_bytes : List ℕ → Option KommsEventRecord
  pub from_bytes_v1 : List ℕ → Option KommsEventRecordV1
  pub has_submit : Bool
  pub stdin : List ℕ
  pub read_file : Text → Option (List ℕ)
  pub open_partition : Text → Option (List (Option (List ℕ × List ℕ)))

pub data RunError : Type 0 where
  decoding : DecodeError → RunError
  identifying : IdError → RunError
  client_failed : ClientError → RunError
  bad_hash : HexError → RunError
  fetching : FetchError → RunError
  scanning : IndexError → RunError
  building : CliError → RunError
  posting : PostError → RunError
  no_database no_file rebuild_with_submit not_written : RunError

module _ (W : World) where
  abbrev pub Json : Type 0
  Json = W.serde.Json

  abbrev pub field : List ℕ → Json
  field b = W.serde.string (W.hex.hex_string b)

  unfoldable pub print_json : Json → Bool → Result RunError Text
  print_json v pretty = do
    text ← ok_or (if pretty then W.serde.to_string_pretty v else W.serde.to_string v) not_written
    ok (text ++ (b'\n' ∷ []))

  abbrev pub decode_bytes : List ℕ → Bool → Bool → Bool → Option Text → Result RunError Json
  decode_bytes bytes strict pretty_cbor verify_sig pk_hex = map_err decoding (
      decode_payload W.serde W.hex W.ciborium W.ed25519 W.debug_t W.debug_cbor W.display bytes
        strict pretty_cbor verify_sig pk_hex)

  -- `block_hash.as_deref().map(hexutil::parse_hex32).transpose()?`
  unfoldable pub hash_hint : Option Text → Result RunError (Option (List ℕ))
  hash_hint none = ok none
  hash_hint (some s) = do h ← map_err bad_hash (parse_hex32 W.hex s); ok (some h)

  unfoldable pub read_tx : TxArgs → Result RunError Json
  read_tx a = do
    client ← map_err client_failed (connected W.kaspa.rpc a.rpc_url (into a.network))
    tid ← map_err bad_hash (parse_hex32 W.hex a.txid)
    bh ← hash_hint a.block_hash
    payload ← map_err fetching (fetch_transaction_payload (W.kaspa.rpc.node client) tid bh)
    j ← decode_bytes payload a.strict a.pretty_cbor a.verify_sig a.ed25519_pubkey_hex
    ok (W.serde.set j "txid" (W.serde.string a.txid))

  unfoldable pub read_index_json : IndexArgs → Result RunError Json
  read_index_json a = do
    items ← ok_or (W.open_partition a.data_dir) no_database
    rows ← map_err scanning (
        read_index W.serde W.hex W.from_bytes W.from_bytes_v1 items a.event_type a.sid_hex a.cid_hex
          a.daa_min a.daa_max)
    ok (W.serde.object (("events", W.serde.array rows) ∷ []))

  -- `submit`, and whether the feature is built in.
  unfoldable pub post_json : PostArgs → Bool → Bool → Result RunError Json
  post_json a true true = do
    (tid, payload) ← map_err posting (
        post_submit W.kaspa W.sha256 W.hex W.ciborium a.cmd a.rpc_url a.network a.change_address
          a.private_key_hex a.priority_fee)
    ok (
        W.serde.object (
          ("submitted_transaction_id", W.serde.string (W.kaspa.to_string tid))
          ∷ ("payload_hex", field payload)
          ∷ []))
  post_json a true false = do
    (ev, raw) ←
        map_err building
          (post W.kaspa.addresses W.sha256 W.hex W.ciborium a.cmd true a.change_address)
    err rebuild_with_submit
  post_json a false has_submit = do
    (ev, raw) ←
        map_err building
          (post W.kaspa.addresses W.sha256 W.hex W.ciborium a.cmd false a.change_address)
    ok (
        W.serde.object
          (("payload_hex", field raw) ∷ ("event", event_to_json W.serde W.hex W.debug_t ev) ∷ []))

  unfoldable pub run : Commands → Result RunError Text
  run (Commands.decode a) = do
    bytes ← map_err decoding (load_input_bytes W.hex W.stdin W.read_file a.input)
    j ← decode_bytes bytes a.strict a.pretty_cbor a.verify_sig a.ed25519_pubkey_hex
    print_json j a.pretty
  run (Commands.ref_inspect hex_arg pretty) = do
    j ← map_err identifying (ref_inspect W.serde W.hex W.debug_t hex_arg)
    print_json j pretty
  run (Commands.id cmd pretty) = do
    j ← map_err identifying (id_json W.serde W.hex W.kaspa.addresses W.secp256k1 W.sha256 cmd)
    print_json j pretty
  run (Commands.read (ReadCmd.tx a) pretty) = do j ← read_tx a; print_json j pretty
  run (Commands.read (ReadCmd.index a) pretty) = do j ← read_index_json a; print_json j pretty
  run (Commands.post a) = do j ← post_json a a.submit W.has_submit; print_json j a.pretty
  run (Commands.verify_content file ref_hex pretty) = do
    data_bytes ← ok_or (W.read_file file) no_file
    j ← map_err identifying (verify_content W.serde W.hex W.sha256 data_bytes ref_hex)
    print_json j pretty
