-- ===== src/Cli/ReadRpc/Find.antt =====
-- src/read_rpc.rs: what is found in a block, and in the blocks of a page.
use komms_cli.Base.{
  ℕ, List, [], ◌∷◌, Option, none, some, Result, ok, err, ◌>>=◌, ok_or, ◌≡◌, ◌⊎◌, inl, inr, refl,
  bytes_eq, bytes_eq_sound, Bool-cases, >>=-eq-ok, arith, ◌∙◌,
}
use mathlib.Core.List
use komms_cli.Cli.ReadRpc.{Node, find_payload_in_block, find_in_blocks, bad_transaction}

-- The two ways on from a search.
pub or_rest :
    {E A B : Type 0} (m : Result E (Option A)) (f : A → Result E B) (rest : Result E B) (b : B)
    → (m >>= λ found. elim found [ some q ↦ f q | none ↦ rest ]) ≡ ok b
    → ((q : A) × (m ≡ ok (some q)) × (f q ≡ ok b)) ⊎ ((m ≡ ok none) × (rest ≡ ok b))
or_rest (ok (some q)) f rest b e = inl (q, refl, e)
or_rest (ok none) f rest b e = inr (refl, e)
or_rest (err why) f rest b e = cc

module _ (N : Node) (want : List ℕ) where
  open N use {Tx, payload, id, get_mempool_entry, get_block, get_blocks}

  -- A transaction of the block has the id that is wanted, and the payload.
  abbrev pub Carries : List Tx → List ℕ → Type 0
  Carries block p = (tx : Tx) × List.Mem tx block × (id tx ≡ some want) × (payload tx ≡ p)

  pub find_payload_sound :
      (block : List Tx) (p : List ℕ)
      → find_payload_in_block N want block ≡ ok (some p)
      → Carries block p
  unfolding find_payload_in_block
  find_payload_sound [] p e = cc
  find_payload_sound (tx ∷ txs) p e =
      let (tx_id, e₁, r₁) = >>=-eq-ok (ok_or (id tx) bad_transaction) _ e in
      elim (Bool-cases (bytes_eq tx_id want)) [
        | inl h ↦ (
          tx,
          List.mem-cons_self,
          ground (arith, e₁, bytes_eq_sound tx_id want h),
          cc (rw h at r₁),
        )
        | inr h ↦
            let (tx', m, i, q) = find_payload_sound txs p (rw h at r₁) in
            (tx', List.mem-cons_of_mem tx m, i, q)
      ]

  pub find_in_blocks_sound :
      (blocks : List (List Tx)) (p : List ℕ)
      → find_in_blocks N want blocks ≡ ok (some p)
      → (block : List Tx) × List.Mem block blocks × Carries block p
  unfolding find_in_blocks
  find_in_blocks_sound [] p e = cc
  find_in_blocks_sound (block ∷ blocks) p e =
      elim (or_rest (find_payload_in_block N want block) (λ q. ok (some q))
        (find_in_blocks N want blocks) (some p) e) [
          | inl (q, e₁, e₂) ↦ (block, List.mem-cons_self, find_payload_sound block p (e₁ ∙ e₂))
          | inr (e₁, e₂) ↦
              let (b, m, c) = find_in_blocks_sound blocks p e₂ in
              (b, List.mem-cons_of_mem block m, c)
        ]

  pub find_in_blocks_nil : find_in_blocks N want [] ≡ ok none
  unfolding find_in_blocks
  find_in_blocks_nil = refl
