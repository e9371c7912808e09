-- ===== src/Cli/ReadRpc/Scan.antt =====
-- src/read_rpc.rs: the scan of recent blocks as steps over pages.
use komms_cli.Base.{
  ℕ, zero, suc, ◌+◌, ◌<◌, ◌≤◌, ◌≢◌, List, [], ◌∷◌, Option, none, some, ok, err, ◌>>=◌, ok_or, ◌≡◌,
  ◌↔◌, inl, inr, refl, length, >>=-eq-ok, arith, ◌∙◌,
}
use komms_cli.Cli.ReadRpc.{
  Page, Node, max_pages, last, find_in_blocks, scan_pages, get_blocks_failed, not_found,
}
use komms_cli.Cli.ReadRpc.Find.{or_rest, find_in_blocks_nil}

module _ (N : Node) (want : List ℕ) where
  open N use {Tx, payload, id, get_mempool_entry, get_block, get_blocks}

  -- The loop gets from one call and `low_hash` to another by pages that do not hold the transaction.
  pub data Scan : ℕ → Option (List ℕ) → ℕ → Option (List ℕ) → Type 0 where
    here : (call : ℕ) (low_hash : Option (List ℕ)) → Scan call low_hash call low_hash
    next :
        (call : ℕ) (low_hash : Option (List ℕ)) (page : Page Tx) {call' : ℕ}
        {low_hash' : Option (List ℕ)}
        → get_blocks call low_hash ≡ some page
        → 0 < length page.blocks
        → find_in_blocks N want page.blocks ≡ ok none
        → Scan (suc call) (last page.block_hashes) call' low_hash'
        → Scan call low_hash call' low_hash'

  -- The first page on the way that holds it, within `left` calls.
  pub record FoundAt (left call : ℕ) (low_hash : Option (List ℕ)) (p : List ℕ) : Type 0 where
    pub at_call : ℕ
    pub at_hash : Option (List ℕ)
    pub page : Page Tx
    pub way : Scan call low_hash at_call at_hash
    pub within : at_call < call + left
    pub answered : get_blocks at_call at_hash ≡ some page
    pub holds : find_in_blocks N want page.blocks ≡ ok (some p)

  -- A page that does not hold it, and what comes after.
  FoundAt-next :
      (left call : ℕ) (low_hash : Option (List ℕ)) (page : Page Tx) (p : List ℕ)
      → get_blocks call low_hash ≡ some page
      → 0 < length page.blocks
      → find_in_blocks N want page.blocks ≡ ok none
      → FoundAt left (suc call) (last page.block_hashes) p
      → FoundAt (suc left) call low_hash p
  FoundAt-next left call low_hash page p e h none_here f = record {
    at_call = f.at_call;
    at_hash = f.at_hash;
    page = f.page;
    way = next call low_hash page e h none_here f.way;
    within = omega (arith, f.within);
    answered = f.answered;
    holds = f.holds;
  }

  pub scan_sound :
      (left call : ℕ) (low_hash : Option (List ℕ)) (p : List ℕ)
      → scan_pages N want left call low_hash ≡ ok p
      → FoundAt left call low_hash p
  unfolding scan_pages
  scan_sound zero call low_hash p e = cc
  scan_sound (suc left) call low_hash p e =
      let (page, e₁, r₁) = >>=-eq-ok (ok_or (get_blocks call low_hash) get_blocks_failed) _ e in
      given page (ground arith) page.blocks refl
        (scan_sound left (suc call) (last page.block_hashes) p) r₁
    where
      given :
          (page : Page Tx)
          → get_blocks call low_hash ≡ some page
          → (blocks : List (List Tx)) → page.blocks ≡ blocks
          → (scan_pages N want left (suc call) (last page.block_hashes) ≡ ok p
              → FoundAt left (suc call) (last page.block_hashes) p)
          → (elim blocks [
            | [] ↦ err not_found
            | block ∷ blocks ↦ find_in_blocks N want (block ∷ blocks) >>= λ found. elim found [
              | some p ↦ ok p
              | none ↦ scan_pages N want left (suc call) (last page.block_hashes)
            ]
          ])
            ≡ ok p
          → FoundAt (suc left) call low_hash p
      given page e₁ [] eb later r = cc
      given page e₁ (block ∷ blocks) eb later r =
          elim (or_rest (find_in_blocks N want (block ∷ blocks)) (λ q. ok q) _ p r) [
            | inl (q, e₂, e₃) ↦ record {
              at_call = call;
              at_hash = low_hash;
              page = page;
              way = here call low_hash;
              within = omega arith;
              answered = e₁;
              holds = rw eb (cc (e₂, e₃));
            }
            | inr (e₂, e₃) ↦
                FoundAt-next left call low_hash page p e₁ (rw eb (omega arith)) (rw eb e₂)
                  (later e₃)
          ]

  Scan-le :
      {call : ℕ} {low_hash : Option (List ℕ)} {call' : ℕ} {low_hash' : Option (List ℕ)}
      → Scan call low_hash call' low_hash'
      → call ≤ call'
  Scan-le (here call low_hash) = omega arith
  Scan-le (next call low_hash page e h none_here way) = omega (arith, Scan-le way)

  scan_hit :
      (left call : ℕ) (low_hash : Option (List ℕ)) (blocks : List (List Tx))
      (block_hashes : List (List ℕ)) (p : List ℕ)
      → get_blocks call low_hash ≡ some (record { blocks = blocks; block_hashes = block_hashes })
      → find_in_blocks N want blocks ≡ ok (some p)
      → scan_pages N want (suc left) call low_hash ≡ ok p
  unfolding scan_pages
  scan_hit left call low_hash [] block_hashes p e found = absurd (nothing found)
    where
      nothing : find_in_blocks N want [] ≢ ok (some p)
      nothing h = cc (find_in_blocks_nil N want, h)
  scan_hit left call low_hash (block ∷ blocks) block_hashes p e found = rw (e, found) refl

  scan_miss :
      (left call : ℕ) (low_hash : Option (List ℕ)) (blocks : List (List Tx))
      (block_hashes : List (List ℕ))
      → get_blocks call low_hash ≡ some (record { blocks = blocks; block_hashes = block_hashes })
      → 0 < length blocks
      → find_in_blocks N want blocks ≡ ok none
      → scan_pages N want (suc left) call low_hash
        ≡ scan_pages N want left (suc call) (last block_hashes)
  unfolding scan_pages
  scan_miss left call low_hash [] block_hashes e h found = absurd (omega arith)
  scan_miss left call low_hash (block ∷ blocks) block_hashes e h found = rw (e, found) refl

  Scan-complete :
      (left : ℕ) {call : ℕ} {low_hash : Option (List ℕ)} {at_call : ℕ} {at_hash : Option (List ℕ)}
      (page : Page Tx) (p : List ℕ)
      → Scan call low_hash at_call at_hash
      → at_call < call + left
      → get_blocks at_call at_hash ≡ some page
      → find_in_blocks N want page.blocks ≡ ok (some p)
      → scan_pages N want left call low_hash ≡ ok p
  Scan-complete zero page p way h e found = absurd (omega (arith, Scan-le way))
  Scan-complete (suc left) page p (here call low_hash) h e found =
      scan_hit left call low_hash page.blocks page.block_hashes p e found
  Scan-complete (suc left) page p (next call low_hash page₀ e₀ some_block none_here way) h e found =
      scan_miss left call low_hash page₀.blocks page₀.block_hashes e₀ some_block none_here
      ∙ Scan-complete left page p way (omega arith) e found

  -- The scan of recent blocks returns a payload exactly when, within its 250 calls, the pages lead to one in
  -- which a transaction is found, every page before it being answered, not empty and without it.
  pub scan_pages_iff :
      (p : List ℕ) → (scan_pages N want max_pages 0 none ≡ ok p) ↔ FoundAt max_pages 0 none p
  scan_pages_iff p = (
    scan_sound max_pages 0 none p,
    λ f. Scan-complete max_pages f.page p f.way f.within f.answered f.holds,
  )
