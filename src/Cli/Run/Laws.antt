-- ===== src/Cli/Run/Laws.antt =====
-- src/lib.rs: the commands that print what other commands read.
use komms_cli.Base.{
  ℕ, List, [], ◌∷◌, Bool, true, false, Option, none, some, ok, ◌≡◌, refl, sym, subst, ◌<◌, length,
  All, IsByte, arith,
}
use komms_cli.Protocol.Event.{ParsedKommsEvent}
use komms_cli.Protocol.Ciborium.{Ciborium, Writes}
use komms_cli.Protocol.Encode.{event_value, encode_komms_payload}
use komms_cli.Protocol.Payload.{parse_komms_payload}
use komms_cli.Protocol.RoundTrip.Written.{Fits}
use komms_cli.Protocol.RoundTrip.Payload.{encode_komms_payload_inv}
use komms_cli.Cli.Hexutil.{parse_hex32, parse_hex32-hex_string}
use komms_cli.Cli.Client.{connected}
use komms_cli.Cli.Network.{NetworkArg, into}
use komms_cli.Cli.ReadRpc.{Node, fetch_transaction_payload}
use komms_cli.Cli.Broadcast.{post_submit}
use komms_cli.Cli.Output.{event_to_json}
use komms_cli.Cli.Commands.{Commands, PostArgs, DecodeArgs, TxArgs, ReadCmd}
use komms_cli.Cli.Decode.{decode_event, with_warning, with_cbor_debug, with_sig, decode_payload}
use komms_cli.Cli.Decode.Laws.{load_input_bytes-hex_string}
use komms_cli.Cli.Post.Patch.{post}
use komms_cli.Cli.Post.Literal.{stored, IsMetaU64}
use komms_cli.Cli.Post.Built.{meta_of}
use komms_cli.Cli.Post.Laws.{post_encodes, parse-post}
use komms_cli.Cli.Run.{
  World, Json, print_json, decode_bytes, post_json, run, field, read_tx, hash_hint,
}

-- A payload that is written is bytes, and more than none.
encode_komms_payload-IsByte :
    (C : Ciborium) (ev : ParsedKommsEvent C.Value) (raw : List ℕ)
    → All IsByte (C.into_writer (event_value C ev))
    → encode_komms_payload C ev ≡ ok raw
    → (0 < length raw) × All IsByte raw
encode_komms_payload-IsByte C ev raw bytes e =
    let (valid, er) = encode_komms_payload_inv C ev raw e in
    subst (λ r. (0 < length r) × All IsByte r) (sym er)
      (omega arith, (omega arith, (omega arith, (omega arith, (omega arith, bytes)))))

fetch_pending :
    (N : Node) (want : List ℕ) (hint : Option (List ℕ)) (tx : N.Tx) (p : List ℕ)
    → N.get_mempool_entry want ≡ some tx
    → N.payload tx ≡ p
    → fetch_transaction_payload N want hint ≡ ok p
unfolding fetch_transaction_payload
fetch_pending N want hint tx p entry holds = ground (arith, entry, holds)

module _ (W : World) where
  abbrev pub event_json : ParsedKommsEvent W.ciborium.Value → Json W
  event_json ev = event_to_json W.serde W.hex W.debug_t ev

  -- The scheme that the parser fills in is not printed.
  event_json-stored :
      (ev : ParsedKommsEvent W.ciborium.Value) → event_json (stored ev) ≡ event_json ev
  unfolding event_to_json
  event_json-stored ev = refl

  pub decode_bytes-strict :
      (bytes : List ℕ) (ev : ParsedKommsEvent W.ciborium.Value)
      → parse_komms_payload W.ciborium bytes ≡ ok ev
      → decode_bytes W bytes true false false none ≡ ok (event_json ev)
  unfolding decode_payload decode_event with_warning with_cbor_debug with_sig
  decode_bytes-strict bytes ev e = rw e refl

  -- `post` without `--submit`, and `decode --strict` of what it prints.
  abbrev pub printed : ParsedKommsEvent W.ciborium.Value → List ℕ → Json W
  printed ev raw = W.serde.object (("payload_hex", field W raw) ∷ ("event", event_json ev) ∷ [])

  abbrev pub strictly : List ℕ → Bool → DecodeArgs
  strictly text pretty = record {
    input = some text;
    strict = true;
    pretty = pretty;
    pretty_cbor = false;
    verify_sig = false;
    ed25519_pubkey_hex = none;
  }

  -- `post --submit`, and `read tx --strict` of what it prints.
  abbrev pub submitted : List ℕ → List ℕ → Json W
  submitted raw tid = W.serde.object (
      ("submitted_transaction_id", W.serde.string (W.kaspa.to_string tid))
      ∷ ("payload_hex", field W raw)
      ∷ [])

  abbrev pub fetching_strictly : List ℕ → Option (List ℕ) → NetworkArg → TxArgs
  fetching_strictly tid rpc_url network = record {
    txid = W.kaspa.to_string tid;
    rpc_url = rpc_url;
    network = network;
    block_hash = none;
    strict = true;
    pretty_cbor = false;
    verify_sig = false;
    ed25519_pubkey_hex = none;
  }

  -- What the crates are relied on for: the digest is 32 bytes, and the CBOR writer writes the smallest heads and,
  -- of the event, bytes.
  pub record Crates (ev : ParsedKommsEvent W.ciborium.Value) : Type 0 where
    pub digest : (m : List ℕ) → length (W.sha256 m) ≡ 32
    pub bytes : All IsByte (W.ciborium.into_writer (event_value W.ciborium ev))
    pub writes : Writes W.ciborium

  module _ (ev : ParsedKommsEvent W.ciborium.Value) (crates : Crates ev) (a : PostArgs)
      (u : IsMetaU64 (meta_of a.cmd)) (raw : List ℕ) (fits : Fits W.ciborium (stored ev))
      (read : W.ciborium.from_reader (W.ciborium.into_writer (event_value W.ciborium (stored ev)))
        ≡ ok (event_value W.ciborium (stored ev))) where
    pub decode_bytes-post :
        (submit : Bool)
        → post W.kaspa.addresses W.sha256 W.hex W.ciborium a.cmd submit a.change_address
          ≡ ok (ev, raw)
        → decode_bytes W raw true false false none ≡ ok (event_json ev)
    decode_bytes-post submit e =
        subst (λ j. decode_bytes W raw true false false none ≡ ok j) (event_json-stored ev)
          (decode_bytes-strict raw (stored ev) (
            parse-post W.kaspa.addresses W.sha256 W.ciborium W.hex a.cmd submit a.change_address
              crates.writes crates.digest u ev raw fits read e))

    -- `post` without `--submit` prints the payload as hex and the event, and `decode --strict` of that hex prints
    -- the same event, whatever standard input, the files and the node hold. The time and the nonce are u64, the
    -- crates do what `Crates` states, the event's byte strings fit a CBOR length, and the CBOR reader reads back
    -- the value that was written.
    pub run-decode-post :
        (pretty : Bool)
        → a.submit ≡ false
        → post W.kaspa.addresses W.sha256 W.hex W.ciborium a.cmd false a.change_address
          ≡ ok (ev, raw)
        → (run W (Commands.post a) ≡ print_json W (printed ev raw) a.pretty)
          × (run W (Commands.decode (strictly (W.hex.hex_string raw) pretty))
              ≡ print_json W (event_json ev) pretty)
    unfolding run post_json
    run-decode-post pretty stays e =
        let encoded =
          post_encodes W.kaspa.addresses W.sha256 W.ciborium W.hex a.cmd false a.change_address ev
            raw e in
        let (some_byte, all_bytes) =
          encode_komms_payload-IsByte W.ciborium ev raw crates.bytes encoded in
        (
          rw (stays, e) refl,
          rw
              (
                load_input_bytes-hex_string W.hex W.stdin W.read_file raw some_byte all_bytes,
                decode_bytes-post false e,
              )
              refl,
        )

    -- With the feature `submit`, `post --submit` prints the id and the payload of what was submitted, and `read tx
    -- --strict` of that id prints the event of the command with the id, once the mempool of the node that it is
    -- connected to has a transaction of that id with that payload. The id is 32 bytes and printed as hex, the
    -- time and the nonce are u64, the crates do what `Crates` states, the event's byte strings fit a CBOR length,
    -- and the CBOR reader reads back the value that was written.
    pub run-read-post :
        (pretty : Bool) (tid : List ℕ) (rpc_url : Option (List ℕ)) (network : NetworkArg)
        (client : W.kaspa.rpc.Client)
        → W.has_submit ≡ true
        → a.submit ≡ true
        → post W.kaspa.addresses W.sha256 W.hex W.ciborium a.cmd true a.change_address
          ≡ ok (ev, raw)
        → post_submit W.kaspa W.sha256 W.hex W.ciborium a.cmd a.rpc_url a.network a.change_address
            a.private_key_hex a.priority_fee
          ≡ ok (tid, raw)
        → W.kaspa.to_string tid ≡ W.hex.hex_string tid
        → length tid ≡ 32
        → All IsByte tid
        → connected W.kaspa.rpc rpc_url (into network) ≡ ok client
        → (tx : (W.kaspa.rpc.node client).Tx)
        → (W.kaspa.rpc.node client).get_mempool_entry tid ≡ some tx
        → (W.kaspa.rpc.node client).payload tx ≡ raw
        → (run W (Commands.post a) ≡ print_json W (submitted raw tid) a.pretty)
          × (run W (Commands.read (ReadCmd.tx (fetching_strictly tid rpc_url network)) pretty)
              ≡ print_json W
                  (W.serde.set (event_json ev) "txid" (W.serde.string (W.kaspa.to_string tid)))
                  pretty)
    unfolding run post_json read_tx hash_hint
    run-read-post pretty tid rpc_url network client built goes e sub text size all_bytes on tx entry
          holds =
        let read_id : parse_hex32 W.hex (W.kaspa.to_string tid) ≡ ok tid =
          subst (λ s. parse_hex32 W.hex s ≡ ok tid) (sym text)
            (parse_hex32-hex_string W.hex tid size all_bytes) in
        (
          rw (goes, built, sub) refl,
          rw
              (
                on,
                read_id,
                fetch_pending (W.kaspa.rpc.node client) tid none tx raw entry holds,
                decode_bytes-post true e,
              )
              refl,
        )
