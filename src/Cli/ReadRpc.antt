-- ===== src/Cli/ReadRpc.antt =====
-- src/read_rpc.rs: `fetch_transaction_payload`.
pub mod Find
pub mod Scan
pub mod Laws
pub mod Bound
use komms_cli.Base.{
  ℕ, zero, suc, List, [], ◌∷◌, Option, none, some, Result, ok, err, ◌>>=◌, ◌>>◌, ok_or, guard, Bool,
  true, false, if◌then◌else◌, bytes_eq,
}

pub data FetchError : Type 0 where
  bad_transaction get_block_failed get_blocks_failed not_found : FetchError

-- A page of `get_blocks`: the transactions of each block, and the hashes.
pub record Page (Tx : Type 0) : Type 0 where
  pub blocks : List (List Tx)
  pub block_hashes : List (List ℕ)

-- The node behind the RPC client. `id` is `none` for a transaction that does not convert. The answer to a call
-- of `get_blocks` may differ from call to call: its first argument counts them.
pub record Node : Type 1 where
  pub Tx : Type 0
  pub payload : Tx → List ℕ
  pub id : Tx → Option (List ℕ)
  pub get_mempool_entry : List ℕ → Option Tx
  pub get_block : List ℕ → Option (List Tx)
  pub get_blocks : ℕ → Option (List ℕ) → Option (Page Tx)

-- `for _ in 0..250u32`
abbrev pub max_pages : ℕ
max_pages = 250

abbrev pub last : {A : Type 0} → List A → Option A
last [] = none
last (x ∷ []) = some x
last (x ∷ y ∷ xs) = last (y ∷ xs)

module _ (N : Node) (want : List ℕ) where
  open N use {Tx, payload, id, get_mempool_entry, get_block, get_blocks}

  unfoldable pub find_payload_in_block : List Tx → Result FetchError (Option (List ℕ))
  find_payload_in_block [] = ok none
  find_payload_in_block (tx ∷ txs) = do
    tx_id ← ok_or (id tx) bad_transaction
    let rest = find_payload_in_block txs
    if bytes_eq tx_id want then ok (some (payload tx)) else rest

  -- `for block in &resp.blocks`
  unfoldable pub find_in_blocks : List (List Tx) → Result FetchError (Option (List ℕ))
  find_in_blocks [] = ok none
  find_in_blocks (block ∷ blocks) =
      let rest = find_in_blocks blocks in
      find_payload_in_block block >>= λ found. elim found [ some p ↦ ok (some p) | none ↦ rest ]

  -- The loop over the pages: how many are left, the number of the call, and `low_hash`.
  unfoldable pub scan_pages : ℕ → ℕ → Option (List ℕ) → Result FetchError (List ℕ)
  scan_pages zero call low_hash = err not_found
  scan_pages (suc left) call low_hash = do
    resp ← ok_or (get_blocks call low_hash) get_blocks_failed
    let rest = scan_pages left (suc call) (last resp.block_hashes)
    elim resp.blocks [
      | [] ↦ err not_found
      | block ∷ blocks ↦
          find_in_blocks (block ∷ blocks) >>= λ found. elim found [ some p ↦ ok p | none ↦ rest ]
    ]

  -- The block that is named, if one is.
  unfoldable pub look_in_hint : Option (List ℕ) → Result FetchError (Option (List ℕ))
  look_in_hint none = ok none
  look_in_hint (some h) = do txs ← ok_or (get_block h) get_block_failed; find_payload_in_block txs

  unfoldable pub fetch_transaction_payload : Option (List ℕ) → Result FetchError (List ℕ)
  fetch_transaction_payload block_hash_hint = elim (get_mempool_entry want) [
    | some tx ↦ ok (payload tx)
    | none ↦ look_in_hint block_hash_hint >>= λ found. elim found [
      | some p ↦ ok p
      | none ↦ scan_pages max_pages 0 none
    ]
  ]
