-- ===== src/Cli/ReadRpc/Laws.antt =====
-- src/read_rpc.rs: which payload is fetched.
use komms_cli.Base.{
  ℕ, ◌<◌, List, Option, none, some, ok, ◌>>=◌, ok_or, ◌≡◌, ◌⊎◌, inl, inr, refl, >>=-eq-ok, arith,
}
use mathlib.Core.List
use komms_cli.Cli.ReadRpc.{
  Page, Node, max_pages, scan_pages, look_in_hint, fetch_transaction_payload, get_block_failed,
}
use komms_cli.Cli.ReadRpc.Find.{or_rest, Carries, find_payload_sound, find_in_blocks_sound}
use komms_cli.Cli.ReadRpc.Scan.{Scan, scan_sound}

module _ (N : Node) (want : List ℕ) where
  open N use {Tx, payload, id, get_mempool_entry, get_block, get_blocks}

  -- Where a transaction can come from: the block that was named, or a page of the scan.
  pub data Served : Option (List ℕ) → List Tx → Type 0 where
    named : (h : List ℕ) (txs : List Tx) → get_block h ≡ some txs → Served (some h) txs
    paged :
        (hint : Option (List ℕ)) (call : ℕ) (low_hash : Option (List ℕ)) (page : Page Tx)
        (txs : List Tx)
        → Scan N want 0 none call low_hash
        → call < max_pages
        → get_blocks call low_hash ≡ some page
        → List.Mem txs page.blocks
        → Served hint txs

  hint_sound :
      (hint : Option (List ℕ)) (p : List ℕ)
      → look_in_hint N want hint ≡ ok (some p)
      → (txs : List Tx) × Served hint txs × Carries N want txs p
  unfolding look_in_hint
  hint_sound none p e = cc
  hint_sound (some h) p e =
      let (txs, e₁, r₁) = >>=-eq-ok (ok_or (get_block h) get_block_failed) _ e in
      (txs, named h txs (ground arith), find_payload_sound N want txs p r₁)

  scan-Served :
      (hint : Option (List ℕ)) (p : List ℕ)
      → scan_pages N want max_pages 0 none ≡ ok p
      → (txs : List Tx) × Served hint txs × Carries N want txs p
  scan-Served hint p e =
      let f = scan_sound N want max_pages 0 none p e in
      let (txs, m, c) = find_in_blocks_sound N want f.page.blocks p f.holds in
      (txs, paged hint f.at_call f.at_hash f.page txs f.way f.within f.answered m, c)

  -- A payload that is fetched is that of the node's mempool entry for the id, or of a transaction with that
  -- id in the block that was named or in a page of the scan.
  pub fetch_sound :
      (hint : Option (List ℕ)) (p : List ℕ)
      → fetch_transaction_payload N want hint ≡ ok p
      → ((tx : Tx) × (get_mempool_entry want ≡ some tx) × (payload tx ≡ p))
        ⊎ ((txs : List Tx) × Served hint txs × Carries N want txs p)
  unfolding fetch_transaction_payload
  fetch_sound hint p e = given (get_mempool_entry want) refl e
    where
      given :
          (entry : Option Tx)
          → get_mempool_entry want ≡ entry
          → (elim entry [
            | some tx ↦ ok (payload tx)
            | none ↦ look_in_hint N want hint >>= λ found. elim found [
              | some p ↦ ok p
              | none ↦ scan_pages N want max_pages 0 none
            ]
          ])
            ≡ ok p
          → ((tx : Tx) × (get_mempool_entry want ≡ some tx) × (payload tx ≡ p))
            ⊎ ((txs : List Tx) × Served hint txs × Carries N want txs p)
      given (some tx) e₁ r = inl (tx, e₁, cc r)
      given none e₁ r = inr (elim (or_rest (look_in_hint N want hint) (λ q. ok q) _ p r) [
        | inl (q, e₂, e₃) ↦ hint_sound hint p (cc (e₂, e₃))
        | inr (e₂, e₃) ↦ scan-Served hint p e₃
      ])
