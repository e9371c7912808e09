-- ===== src/Cli/Submit/Pick.antt =====
-- src/submit.rs: `pick_utxos`.
use komms_cli.Base.{
  ℕ, ◌+◌, ◌-◌, ◌%◌, List, [], ◌∷◌, ◌++◌, Result, ok, err, if◌then◌else◌, ltb, leb, length,
}
use komms_cli.Cli.Submit.Fee.{u64_mod, required_fee}

pub data PickError : Type 0 where
  insufficient : PickError

-- What `pick_utxos` returns: the entries, their sum, the fee and the value of the output.
pub record Selection (Entry : Type 0) : Type 0 where
  pub picked : List Entry
  pub total_in : ℕ
  pub fee : ℕ
  pub output_value : ℕ

module _ {Entry : Type 0} (amount : Entry → ℕ) where
  -- The standard library's stable sort by descending amount, as an insertion sort.
  unfoldable pub insert : Entry → List Entry → List Entry
  insert e [] = e ∷ []
  insert e (f ∷ fs) =
      let rest = insert e fs in if leb (amount f) (amount e) then e ∷ f ∷ fs else f ∷ rest

  unfoldable pub sort_by_amount : List Entry → List Entry
  sort_by_amount [] = []
  sort_by_amount (e ∷ es) = insert e (sort_by_amount es)

  -- The loop over the sorted entries.
  unfoldable pub pick_from :
      ℕ → ℕ → List Entry → ℕ → List Entry → Result PickError (Selection Entry)
  pick_from payload_len priority_fee picked sum [] = err insufficient
  pick_from payload_len priority_fee picked sum (e ∷ v) =
      let sum' = (sum + amount e) % u64_mod in
      let picked' : List Entry = picked ++ (e ∷ []) in
      let fee = required_fee (length picked') 1 payload_len priority_fee in
      let out = sum' - fee in
      let rest = pick_from payload_len priority_fee picked' sum' v in
      if ltb fee sum'
      then (if ltb 0 out
          then ok (record { picked = picked'; total_in = sum'; fee = fee; output_value = out })
          else rest)
      else rest

  unfoldable pub pick_utxos : List Entry → ℕ → ℕ → Result PickError (Selection Entry)
  pick_utxos entries payload_len priority_fee =
      pick_from payload_len priority_fee [] 0 (sort_by_amount entries)
