-- ===== src/Lib.antt =====
-- KOMMS: the payload codec, the crypto helpers and the command line of komms-cli.
--
-- The program. A KOMMS event travels in a transaction payload: four prefix bytes and one CBOR map with
-- small integer keys. The `protocol` crate parses, validates, encodes and verifies events; the `crypto`
-- crate seals single fields, derives keys and tags, hashes the state of an indexer, and signs requests.
-- The command line builds events, encodes them with `protocol`, submits them, and reads payloads back.
--
-- The files.
--   Base             shared names, lists, bytes, UTF-8, Rust's Result, big-endian integers
--   Canonical.Walk   protocol/src/canonical.rs: `validate_canonical` and the walker below it. A cursor
--                    holds the offset and the bytes from there on. The recursion is on the levels left
--                    under MAX_NESTING_DEPTH, 9 at the outermost item, so no fuel can run out that the
--                    code would not report as `NestingTooDeep`.
--   Canonical.Grammar, Complete, Sound, Laws
--                    canonical CBOR as a grammar of byte strings, and the walker against it
--   Protocol.EventType, Event, Validate, FieldMap, Parse, Payload
--                    protocol/src/lib.rs: the types; `validate_event` as the sequence of its checks
--                    (Guards) and one function per arm of its match (ByType); the `BTreeMap` of fields as
--                    an association list in key order; `parse_cbor_map` stage by stage; the entry points
--                    `parse_komms_payload` and `parse_komms_payload_with_future`
--   Protocol.Encode  protocol/src/encode.rs: `encode_cbor_map` as four lists of slots, the signing payload
--                    and `encode_komms_payload`
--   Protocol.Ids     protocol/src/encode.rs: the `ref` builders and the identifiers
--   Protocol.Verify  protocol/src/verify.rs: `verify_event`; Verify.Scheme is about version 0,
--                    Verify.Injective about the signing payload
--   Protocol.Ciborium
--                    the `ciborium` crate as an interface: its values, accessors, reader and writer
--   Protocol.RoundTrip
--                    the encoder against the parser and the walker
--   Protocol.Typed   what the parser guarantees of an event: the helpers (Pop), the stages (Stages), the whole
--                    parser (Parsed), and writing a parsed event again (Reencode)
--   Crypto.Sealed, Aead, Kdf, Tags, StateHash, RequestAuth
--                    crypto/src/sealed.rs, aead.rs, kdf.rs, tags.rs, state_hash.rs, request_auth.rs
--                    RequestAuth.Verify is `verify` of request_auth.rs
--   Hex              the `faster_hex` crate as an interface
--   Cli.Hexutil      src/hexutil.rs
--   Cli.Output       src/output.rs, over `serde_json` as an interface
--   Cli.Post         src/lib.rs, the command `post`: its arguments (Commands, Args), `build_post_ev`
--                    (Build), `patch_member_join_leave_pid` (Patch), and what they build: the shape of
--                    each event (Literal, Built, Arms, Returned), and the command as a whole (Laws)
--   Cli.Submit       src/submit.rs: fees, `pick_utxos`, and `submit_komms_payload` up to the submission
--   Cli.Broadcast    src/lib.rs, `post` with `--submit`
--   Cli.Decode       src/lib.rs: `load_input_bytes` and `decode_payload`
--   Cli.Id           src/lib.rs: the commands `id`, `ref-inspect` and `verify-content`
--   Cli.Client, Network
--                    src/lib.rs: `make_client` and the networks; src/read_rpc.rs: connecting, the network id
--   Cli.ReadRpc      src/read_rpc.rs: `fetch_transaction_payload`. The loop over the pages counts down from
--                    the 250 rounds of the code, so it runs out where the code does.
--   Cli.IndexScan    src/index_scan.rs, and the loop of `read index`
--   Cli.Commands, Run
--                    src/lib.rs: the arguments of every command, and `run`, which calls the parts above. Its
--                    parameter, the `World`, holds the crates, the input and the build feature `submit`; its
--                    result is the text that is printed. Run.Laws, Content and Signed compose the parts.
--   Examples         every theorem below at concrete inputs, with a small CBOR codec for `ciborium`
--
-- The values. A u8, a u64 and a usize are numbers; where the Rust type bounds them, a theorem that needs
-- the bound has it as a hypothesis. Byte arrays and vectors are lists of numbers, a `String` is the list
-- of its UTF-8 bytes. A function that fails returns the `Result` of Base. The standard library's stable
-- sort is an insertion sort.
--
-- Parameters. `ciborium` (Protocol.Ciborium): the accessors return what was built; `Writes` says that the
-- writer writes the smallest heads and definite lengths; a round trip takes as hypothesis that the reader
-- reads back the one value in question. `ed25519_dalek`, AES-256-GCM, HKDF, HMAC, SHA-256, BLAKE2b and the
-- random nonce are functions that the definitions take, as is the key that `id new-wallet` draws; of
-- AES-256-GCM the code relies on decryption of what was encrypted and on the 16 bytes of its tag.
-- `faster_hex` decodes what it encodes. The Kaspa crates, the node behind the RPC client, `postcard`, the
-- database, standard input, files, the clock and `serde_json` are arguments too, with records for Kaspa's
-- transactions that hold what the code gives to their constructors; of the signatures the fee relies on
-- their 64 bytes, of SHA-256 on its 32.
--
-- Machine integers. Sums and fees in submit.rs wrap at 2^64, and timestamps in request_auth.rs at 2^63, as in
-- a release build; a theorem that needs a bound has it as a hypothesis.
--
-- Not modelled: reading the arguments, which is clap's; what the crates and the node do behind the parameters;
-- the texts of the error messages, of which the model keeps the case; the re-exports of crypto/src/lib.rs; and
-- src/main.rs, which only calls `run`. The rest of the Rust code is unit tests.
pub mod Base
pub mod Hex
pub mod Canonical
pub mod Protocol
pub mod Crypto
pub mod Cli
mod Examples
