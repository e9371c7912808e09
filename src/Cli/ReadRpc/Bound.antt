-- ===== src/Cli/ReadRpc/Bound.antt =====
-- src/read_rpc.rs: what `fetch_transaction_payload` returns on a node whose pages are known.
use komms_cli.Base.{
  ℕ, zero, suc, ◌+◌, ◌≤◌, ◌<◌, List, [], ◌∷◌, ◌++◌, Option, none, some, Result, ok, err, ok_or,
  ◌>>=◌, ◌≡◌, ◌≢◌, refl, ◌∙◌, ap, arith, subst, sym, bytes_eq, bytes_eq_sound, bytes_eq_refl,
  Bool-cases, inl, inr, if◌then◌else◌,
}
use komms_cli.Cli.ReadRpc.{
  Node, Page, FetchError, max_pages, bad_transaction, not_found, last, find_payload_in_block,
  find_in_blocks, scan_pages, look_in_hint, fetch_transaction_payload,
}

-- The transactions of some blocks, before those that come after.
abbrev joined : {Tx : Type 0} → List (List Tx) → List Tx → List Tx
joined [] rest = rest
joined (block ∷ blocks) rest = block ++ joined blocks rest

-- An empty page ends the scan.
abbrev unless_empty : {Tx : Type 0} → List (List Tx) → List Tx → List Tx
unless_empty [] rest = []
unless_empty (block ∷ blocks) rest = joined (block ∷ blocks) rest

-- The transactions of `k` pages from page `n` on, in order, up to an empty page.
abbrev pub seen : {Tx : Type 0} → (ℕ → Page Tx) → ℕ → ℕ → List Tx
seen pages zero n = []
seen pages (suc k) n = unless_empty (pages n).blocks (seen pages k (suc n))

-- The `low_hash` of call `n`: none at first, then the last hash of the page before.
abbrev pub asked : {Tx : Type 0} → (ℕ → Page Tx) → ℕ → Option (List ℕ)
asked pages zero = none
asked pages (suc n) = last (pages n).block_hashes

-- The transactions of the block that is named, if one is.
abbrev pub hinted : (N : Node) → Option (List ℕ) → Option (List N.Tx)
hinted N none = some []
hinted N (some h) = N.get_block h

max_pages_lem : max_pages ≡ 250
max_pages_lem = refl

abbrev after :
    Result FetchError (Option (List ℕ)) → Result FetchError (List ℕ) → Result FetchError (List ℕ)
after first rest = first >>= λ found. elim found [ some p ↦ ok p | none ↦ rest ]

after-after :
    (first second : Result FetchError (Option (List ℕ))) (rest : Result FetchError (List ℕ))
    → after (first >>= λ found. elim found [ some p ↦ ok (some p) | none ↦ second ]) rest
      ≡ after first (after second rest)
after-after (ok (some p)) second rest = refl
after-after (ok none) second rest = refl
after-after (err why) second rest = refl

module _ (N : Node) (want : List ℕ) where
  open N use {Tx, payload, id}

  -- What a search of the transactions in order comes to: the payload of the first with the id that is wanted,
  -- unless one before it does not convert.
  pub data Finds : List Tx → Result FetchError (List ℕ) → Type 0 where
    nowhere : Finds [] (err not_found)
    bad : (tx : Tx) (txs : List Tx) → id tx ≡ none → Finds (tx ∷ txs) (err bad_transaction)
    found : (tx : Tx) (txs : List Tx) → id tx ≡ some want → Finds (tx ∷ txs) (ok (payload tx))
    skip :
        (tx : Tx) {txs : List Tx} (tx_id : List ℕ) {r : Result FetchError (List ℕ)}
        → id tx ≡ some tx_id
        → tx_id ≢ want
        → Finds txs r
        → Finds (tx ∷ txs) r

  Finds-find_payload :
      (txs rest : List Tx) (r : Result FetchError (List ℕ))
      → Finds rest r
      → Finds (txs ++ rest) (after (find_payload_in_block N want txs) r)
  unfolding find_payload_in_block
  Finds-find_payload [] rest r f = f
  Finds-find_payload (tx ∷ txs) rest r f = given (id tx) refl (Finds-find_payload txs rest r f)
    where
      given :
          (o : Option (List ℕ))
          → id tx ≡ o
          → Finds (txs ++ rest) (after (find_payload_in_block N want txs) r)
          → Finds (tx ∷ (txs ++ rest)) (
              after
                (ok_or o bad_transaction >>= λ tx_id.
                  if bytes_eq tx_id want
                  then ok (some (payload tx))
                  else find_payload_in_block N want txs)
                r)
      given none e later = bad tx (txs ++ rest) e
      given (some tx_id) e later = elim (Bool-cases (bytes_eq tx_id want)) [
        | inl h ↦ rw h (found tx (txs ++ rest) (e ∙ ap some (bytes_eq_sound tx_id want h)))
        | inr h ↦ rw h (skip tx tx_id e (λ same. cc (h, bytes_eq_refl want, same)) later)
      ]

  Finds-find_in_blocks :
      (blocks : List (List Tx)) (rest : List Tx) (r : Result FetchError (List ℕ))
      → Finds rest r
      → Finds (joined blocks rest) (after (find_in_blocks N want blocks) r)
  unfolding find_in_blocks
  Finds-find_in_blocks [] rest r f = f
  Finds-find_in_blocks (block ∷ blocks) rest r f =
      subst (Finds (block ++ joined blocks rest))
        (sym (after-after (find_payload_in_block N want block) (find_in_blocks N want blocks) r))
        (Finds-find_payload block (joined blocks rest) (after (find_in_blocks N want blocks) r)
          (Finds-find_in_blocks blocks rest r f))

  Finds-page :
      (left call : ℕ) (low_hash : Option (List ℕ)) (blocks : List (List Tx))
      (block_hashes : List (List ℕ)) (rest : List Tx)
      → N.get_blocks call low_hash ≡ some (record { blocks = blocks; block_hashes = block_hashes })
      → Finds rest (scan_pages N want left (suc call) (last block_hashes))
      → Finds (unless_empty blocks rest) (scan_pages N want (suc left) call low_hash)
  unfolding scan_pages
  Finds-page left call low_hash [] block_hashes rest e f = rw e nowhere
  Finds-page left call low_hash (block ∷ blocks) block_hashes rest e f =
      rw e (Finds-find_in_blocks (block ∷ blocks) rest _ f)

  Finds-hint :
      (hint : Option (List ℕ)) (txs rest : List Tx) (r : Result FetchError (List ℕ))
      → hinted N hint ≡ some txs
      → Finds rest r
      → Finds (txs ++ rest) (after (look_in_hint N want hint) r)
  unfolding look_in_hint
  Finds-hint none [] rest r e f = f
  Finds-hint none (tx ∷ txs) rest r e f = cc e
  Finds-hint (some h) txs rest r e f = rw e (Finds-find_payload txs rest r f)

  module _ (pages : ℕ → Page Tx)
      (answered : (n : ℕ) → n < 250 → N.get_blocks n (asked pages n) ≡ some (pages n)) where
    Finds-scan_pages :
        (left call : ℕ)
        → call + left ≤ 250
        → Finds (seen pages left call) (scan_pages N want left call (asked pages call))
    unfolding scan_pages
    Finds-scan_pages zero call h = nowhere
    Finds-scan_pages (suc left) call h =
        Finds-page left call (asked pages call) (pages call).blocks (pages call).block_hashes
          (seen pages left (suc call)) (answered call (omega (arith, h)))
          (Finds-scan_pages left (suc call) (omega (arith, h)))

    -- A fetch returns what a search of one list of transactions comes to: those of the named block, if any, then
    -- those of the first 250 pages in order, up to an empty page. It is the payload of the first of them with the
    -- id that is wanted; an error, if one before it does not convert; and `not_found`, if no transaction of the
    -- list has the id, whatever the node holds beyond. The transaction is not in the mempool, the named block is
    -- there, and the node answers call `n` for the last hash of page `n - 1` by page `n`, for `n` below 250.
    pub fetch_transaction_payload-Finds :
        (hint : Option (List ℕ)) (txs : List Tx)
        → N.get_mempool_entry want ≡ none
        → hinted N hint ≡ some txs
        → Finds (txs ++ seen pages 250 0) (fetch_transaction_payload N want hint)
    unfolding fetch_transaction_payload
    fetch_transaction_payload-Finds hint txs none_pending e =
        subst (λ k. Finds (txs ++ seen pages k 0) (fetch_transaction_payload N want hint))
          max_pages_lem
          (given (txs ++ seen pages max_pages 0) (N.get_mempool_entry want) none_pending (
            Finds-hint hint txs (seen pages max_pages 0) (scan_pages N want max_pages 0 none) e
              (Finds-scan_pages max_pages 0 (omega (arith, max_pages_lem)))))
      where
        given :
            (all : List Tx) (o : Option Tx) {r : Result FetchError (List ℕ)}
            → o ≡ none
            → Finds all r
            → Finds all (elim o [ some tx ↦ ok (payload tx) | none ↦ r ])
        given all none h f = f
        given all (some tx) h f = cc h
