-- ===== src/Cli/IndexScan.antt =====
-- src/index_scan.rs: the rows of the indexer's database; src/lib.rs: `read index`.
pub mod Laws
use komms_cli.Base.{
  ℕ, List, [], ◌∷◌, String, Bool, true, false, ◌&&◌, not, Option, none, some, Result, ok, err,
  ◌>>=◌, ◌>>◌, map_err, ok_or, guard, if◌then◌else◌, ltb, ◌==◌, length, bytes_eq, map,
}
use komms_cli.Hex.{FasterHex}
use komms_cli.Cli.Hexutil.{HexError, parse_hex32}
use komms_cli.Cli.Output.{SerdeJson, json_opt}

pub record KommsEventRecord : Type 0 where
  pub containing_block_hash : List ℕ
  pub containing_daa : ℕ
  pub event_type : ℕ
  pub enc : Bool
  pub sid : Option (List ℕ)
  pub cid : Option (List ℕ)
  pub did : Option (List ℕ)
  pub pid : Option (List ℕ)
  pub mid : Option (List ℕ)
  pub ref_bytes : Option (List ℕ)
  pub ts : Option ℕ
  pub n : Option ℕ
  pub sig : Option (List ℕ)
  pub creator_address_body : Option (List ℕ)

pub record KommsEventRecordV1 : Type 0 where
  pub containing_block_hash : List ℕ
  pub containing_daa : ℕ
  pub event_type : ℕ
  pub enc : Bool
  pub sid : Option (List ℕ)
  pub cid : Option (List ℕ)
  pub did : Option (List ℕ)
  pub pid : Option (List ℕ)
  pub mid : Option (List ℕ)
  pub ref_bytes : Option (List ℕ)
  pub ts : Option ℕ
  pub n : Option ℕ
  pub sig : Option (List ℕ)

pub data IndexError : Type 0 where
  postcard fjall_iter : IndexError
  bad_key_length : ℕ → IndexError
  hex : HexError → IndexError

unfoldable pub from_v1 : KommsEventRecordV1 → KommsEventRecord
from_v1 v1 = record {
  containing_block_hash = v1.containing_block_hash;
  containing_daa = v1.containing_daa;
  event_type = v1.event_type;
  enc = v1.enc;
  sid = v1.sid;
  cid = v1.cid;
  did = v1.did;
  pid = v1.pid;
  mid = v1.mid;
  ref_bytes = v1.ref_bytes;
  ts = v1.ts;
  n = v1.n;
  sig = v1.sig;
  creator_address_body = none;
}

-- `from_bytes` and `from_bytes_v1` are `postcard::from_bytes` at the two record types. An item of the partition
-- is `none` when its iterator fails, else the key and the value.
module _ (from_bytes : List ℕ → Option KommsEventRecord)
    (from_bytes_v1 : List ℕ → Option KommsEventRecordV1) where
  unfoldable pub decode_record : List ℕ → Result IndexError KommsEventRecord
  decode_record bytes = elim (from_bytes bytes) [
    | some rec ↦ ok rec
    | none ↦ (do v1 ← ok_or (from_bytes_v1 bytes) postcard; ok (from_v1 v1))
  ]

  unfoldable pub load_komms_events :
      List (Option (List ℕ × List ℕ)) → Result IndexError (List (List ℕ × KommsEventRecord))
  load_komms_events [] = ok []
  load_komms_events (item ∷ items) = do
    (key, value) ← ok_or item fjall_iter
    guard (length key == 32) (bad_key_length (length key))
    rec ← decode_record value
    out ← load_komms_events items
    ok ((key, rec) ∷ out)

-- The arguments of `read index` after they are read.
pub record Filter : Type 0 where
  pub event_type : Option ℕ
  pub sid : Option (List ℕ)
  pub cid : Option (List ℕ)
  pub daa_min : Option ℕ
  pub daa_max : Option ℕ

-- `rec.sid != Some(s)`
abbrev pub is_bytes : Option (List ℕ) → List ℕ → Bool
is_bytes none s = false
is_bytes (some b) s = bytes_eq b s

-- `if let Some(t) = event_type && rec.event_type != t { continue; }`, and so on.
abbrev pub skips : {A : Type 0} → Option A → (A → Bool) → Bool
skips none test = false
skips (some a) test = test a

unfoldable pub is_skipped : Filter → KommsEventRecord → Bool
is_skipped f rec =
    if skips f.event_type (λ t. not (rec.event_type == t))
    then true
    else if skips f.sid (λ s. not (is_bytes rec.sid s))
    then true
    else if skips f.cid (λ c. not (is_bytes rec.cid c))
    then true
    else if skips f.daa_min (λ lo. ltb rec.containing_daa lo)
    then true
    else skips f.daa_max (λ hi. ltb hi rec.containing_daa)

-- The loop over the entries, as the entries whose rows are pushed.
unfoldable pub select : Filter → List (List ℕ × KommsEventRecord) → List (List ℕ × KommsEventRecord)
select f [] = []
select f ((tx_id, rec) ∷ entries) =
    let rest = select f entries in if is_skipped f rec then rest else (tx_id, rec) ∷ rest

module _ (S : SerdeJson) (H : FasterHex) where
  open S use {Json, number, boolean, string, object}
  open H use {hex_string}

  abbrev pub hex_of : Option (List ℕ) → Json
  hex_of b = json_opt S (λ v. string (hex_string v)) b

  unfoldable pub row : List ℕ × KommsEventRecord → Json
  row (tx_id, rec) = object (
      ("txid", string (hex_string tx_id))
      ∷ ("containing_block_hash", string (hex_string rec.containing_block_hash))
      ∷ ("containing_daa", number rec.containing_daa)
      ∷ ("event_type", number rec.event_type)
      ∷ ("enc", boolean rec.enc)
      ∷ ("sid", hex_of rec.sid)
      ∷ ("cid", hex_of rec.cid)
      ∷ ("did", hex_of rec.did)
      ∷ ("pid", hex_of rec.pid)
      ∷ ("mid", hex_of rec.mid)
      ∷ ("ref", hex_of rec.ref_bytes)
      ∷ ("ts", json_opt S number rec.ts)
      ∷ ("n", json_opt S number rec.n)
      ∷ ("sig", hex_of rec.sig)
      ∷ [])

  -- `sid_hex.as_deref().map(hexutil::parse_hex32).transpose()?`
  unfoldable pub hash_filter : Option (List ℕ) → Result IndexError (Option (List ℕ))
  hash_filter none = ok none
  hash_filter (some s) = do b ← map_err hex (parse_hex32 H s); ok (some b)

-- `read index`, given the items of the partition and the arguments.
module _ (S : SerdeJson) (H : FasterHex) (from_bytes : List ℕ → Option KommsEventRecord)
    (from_bytes_v1 : List ℕ → Option KommsEventRecordV1) where
  unfoldable pub read_index :
      List (Option (List ℕ × List ℕ))
      → Option ℕ
      → Option (List ℕ)
      → Option (List ℕ)
      → Option ℕ
      → Option ℕ
      → Result IndexError (List S.Json)
  read_index items event_type sid_hex cid_hex daa_min daa_max = do
    entries ← load_komms_events from_bytes from_bytes_v1 items
    sid_f ← hash_filter S H sid_hex
    cid_f ← hash_filter S H cid_hex
    let f : Filter = record {
      event_type = event_type;
      sid = sid_f;
      cid = cid_f;
      daa_min = daa_min;
      daa_max = daa_max;
    }
    ok (map (row S H) (select f entries))
