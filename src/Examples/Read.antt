-- ===== src/Examples/Read.antt =====
-- The commands `decode`, `read tx` and `read index`, with toys of the crates and of a node.
use komms_cli.Base.{
  ℕ, zero, suc, ◌≡◌, ◌↔◌, refl, List, [], ◌∷◌, true, false, Option, none, some, ok, map,
}
use komms_cli.Protocol.Verify.{Ed25519}
use komms_cli.Cli.Output.{event_to_json}
use komms_cli.Cli.Decode.{decode_event, with_warning, with_cbor_debug, with_sig, decode_payload}
use komms_cli.Cli.Decode.Laws.{decode_payload-strict}
use komms_cli.Cli.ReadRpc.{Node, Page, max_pages, scan_pages, fetch_transaction_payload}
use komms_cli.Cli.ReadRpc.Bound.{seen, Finds, fetch_transaction_payload-Finds}
use komms_cli.Cli.ReadRpc.Scan.{FoundAt, scan_pages_iff}
use komms_cli.Cli.IndexScan.{
  KommsEventRecord, KommsEventRecordV1, Filter, read_index, load_komms_events, decode_record,
  from_v1, select, is_skipped, row, hash_filter,
}
use komms_cli.Cli.IndexScan.Laws.{Selects, AllEntries, read_index_sound}
use komms_cli.Examples.Cbor.{codec}
use komms_cli.Examples.Hex.{hexer}
use komms_cli.Examples.Json.{JsonValue, json}
use komms_cli.Examples.Payload.{repeat, message, raw_message, parsed_message}

abbrev pub ed25519 : Ed25519
ed25519 = record { VerifyingKey = List ℕ; from_bytes = λ k. some k; verify_strict = λ k m s. true }

decoded :
    decode_payload json hexer codec ed25519
      (λ t. [])
      (λ v. [])
      (λ e. [])
      raw_message
      true
      false
      false
      none
    ≡ ok (event_to_json json hexer (λ t. []) message)
unfolding decode_payload decode_event with_warning with_cbor_debug with_sig
decoded = rw parsed_message refl

decode_payload-strict_example :
    decode_payload json hexer codec ed25519
      (λ t. [])
      (λ v. [])
      (λ e. [])
      raw_message
      false
      false
      false
      none
    ≡ ok (event_to_json json hexer (λ t. []) message)
decode_payload-strict_example =
    decode_payload-strict json hexer codec ed25519 (λ t. []) (λ v. []) (λ e. []) raw_message false
      false none (event_to_json json hexer (λ t. []) message) decoded

-- Transactions with their id and payload; the second page holds the wanted one.
abbrev pages : ℕ → Option (List ℕ) → Option (Page (List ℕ × List ℕ))
pages zero low_hash =
    some (record { blocks = ((1 ∷ [], 10 ∷ []) ∷ []) ∷ []; block_hashes = (7 ∷ []) ∷ [] })
pages (suc call) low_hash =
    some (record { blocks = ((2 ∷ [], 20 ∷ []) ∷ []) ∷ []; block_hashes = (8 ∷ []) ∷ [] })

abbrev node : Node
node = record {
  Tx = List ℕ × List ℕ;
  payload = λ tx. tx.1;
  id = λ tx. some tx.0;
  get_mempool_entry = λ want. none;
  get_block = λ h. none;
  get_blocks = pages;
}

scan_pages_iff_example :
    (scan_pages node (2 ∷ []) max_pages 0 none ≡ ok (20 ∷ []))
    ↔ FoundAt node (2 ∷ []) max_pages 0 none (20 ∷ [])
scan_pages_iff_example = scan_pages_iff node (2 ∷ []) (20 ∷ [])

-- A record of the type and the time that the value holds.
abbrev record_of : ℕ → ℕ → KommsEventRecordV1
record_of t daa = record {
  containing_block_hash = repeat 32 1;
  containing_daa = daa;
  event_type = t;
  enc = false;
  sid = some (repeat 32 3);
  cid = none;
  did = none;
  pid = none;
  mid = none;
  ref_bytes = none;
  ts = none;
  n = none;
  sig = none;
}

abbrev from_bytes_v1 : List ℕ → Option KommsEventRecordV1
from_bytes_v1 (t ∷ daa ∷ []) = some (record_of t daa)
from_bytes_v1 _ = none

abbrev items : List (Option (List ℕ × List ℕ))
items =
    some (repeat 32 5, 4 ∷ 100 ∷ [])
    ∷ some (repeat 32 6, 4 ∷ 200 ∷ [])
    ∷ some (repeat 32 7, 5 ∷ 300 ∷ [])
    ∷ []

abbrev rows : List JsonValue
rows = row json hexer (repeat 32 6, from_v1 (record_of 4 200)) ∷ []

rows_lem :
    read_index json hexer (λ b. none) from_bytes_v1 items (some 4) none none (some 150) none
    ≡ ok rows
unfolding read_index load_komms_events decode_record hash_filter select is_skipped from_v1
rows_lem = refl

read_index_sound_example :
    (entries kept : List (List ℕ × KommsEventRecord)) × (f : Filter) × AllEntries json hexer
      (λ b. none)
      from_bytes_v1
      items
      entries
    × (hash_filter json hexer none ≡ ok f.sid)
    × (hash_filter json hexer none ≡ ok f.cid)
    × (f.event_type ≡ some 4)
    × (f.daa_min ≡ some 150)
    × (f.daa_max ≡ none)
    × Selects f entries kept
    × (rows ≡ map (row json hexer) kept)
read_index_sound_example =
    read_index_sound json hexer (λ b. none) from_bytes_v1 items (some 4) none none (some 150) none
      rows rows_lem

-- Each page holds one transaction, whose id is the number of the page.
abbrev numbered : ℕ → Page (List ℕ × List ℕ)
numbered n = record { blocks = ((n ∷ [], 20 ∷ []) ∷ []) ∷ []; block_hashes = (n ∷ []) ∷ [] }

-- The node with those pages, and a block that is named.
abbrev numbering : Node
numbering = record node {
  get_block = λ h. some ((7 ∷ 7 ∷ [], 30 ∷ []) ∷ []);
  get_blocks = λ call low_hash. some (numbered call);
}

fetch_transaction_payload-Finds_example :
    Finds numbering
      (249 ∷ [])
      ((7 ∷ 7 ∷ [], 30 ∷ []) ∷ seen numbered 250 0)
      (fetch_transaction_payload numbering (249 ∷ []) (some []))
fetch_transaction_payload-Finds_example =
    fetch_transaction_payload-Finds numbering (249 ∷ []) numbered (λ n h. refl) (some [])
      ((7 ∷ 7 ∷ [], 30 ∷ []) ∷ []) refl refl
