-- ===== src/Crypto/StateHash/Defs.antt =====
-- crypto/src/state_hash.rs: the cumulative state hash of the indexers.
use Prim.Native.Nat.{bit_and, bit_or}
use komms_cli.Base.{
  lex_le, ℕ, zero, suc, List, [], ◌∷◌, ◌++◌, if◌then◌else◌, ltb, length, to_be_bytes, ascii,
}

abbrev pub genesis_domain : List ℕ
genesis_domain = ascii "KOMMS_STATE_GENESIS_v1.1"

pub record ProjectedEvent : Type 0 where
  pub tx_id : List ℕ
  pub canonical_cbor : List ℕ

-- The standard library's stable sort by transaction id, as an insertion sort.
unfoldable pub insert : ProjectedEvent → List ProjectedEvent → List ProjectedEvent
insert e [] = e ∷ []
insert e (f ∷ fs) =
    let rest = insert e fs in if lex_le e.tx_id f.tx_id then e ∷ f ∷ fs else f ∷ rest

unfoldable pub sort_by_tx_id : List ProjectedEvent → List ProjectedEvent
sort_by_tx_id [] = []
sort_by_tx_id (e ∷ es) = insert e (sort_by_tx_id es)

-- `initial | x` on one byte; `value as u8` of a value below 256 is the value.
unfoldable pub encode_cbor_uint_header : ℕ → ℕ → List ℕ
encode_cbor_uint_header major_type_byte value =
    let initial = bit_and major_type_byte 0xE0 in
    if ltb value 24
    then bit_or initial value ∷ []
    else if ltb value 0x100
    then bit_or initial 24 ∷ value ∷ []
    else if ltb value 0x10000
    then bit_or initial 25 ∷ to_be_bytes 2 value
    else if ltb value 0x1_0000_0000
    then bit_or initial 26 ∷ to_be_bytes 4 value
    else bit_or initial 27 ∷ to_be_bytes 8 value

-- The `update` calls of the loop, one after the other.
unfoldable pub bodies : List ProjectedEvent → List ℕ
bodies [] = []
bodies (e ∷ es) = e.canonical_cbor ++ bodies es

-- The CBOR array of the events in the order of their transaction ids.
unfoldable pub event_array : List ProjectedEvent → List ℕ
event_array events = encode_cbor_uint_header 0x80 (length events) ++ bodies (sort_by_tx_id events)

abbrev pub zeros : ℕ → List ℕ
zeros zero = []
zeros (suc n) = 0 ∷ zeros n

-- `blake` is BLAKE2b-256 of the bytes that were given to `update`.
module _ (blake : List ℕ → List ℕ) where
  unfoldable pub state_hash_genesis : List ℕ
  state_hash_genesis = blake (genesis_domain ++ zeros 32)

  unfoldable pub state_hash_next : List ℕ → List ProjectedEvent → List ℕ
  state_hash_next prior events = blake (prior ++ event_array events)
