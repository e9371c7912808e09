-- ===== src/Cli/Submit/Laws.antt =====
-- What `pick_utxos` picks, and when it finds nothing.
use komms_cli.Base.{
  ℕ, suc, ◌+◌, ◌-◌, ◌%◌, ◌≤◌, ◌<◌, ◌≡◌, refl, sym, ap, ◌∙◌, subst, List, [], ◌∷◌, ◌++◌,
  append_assoc, append-nil, Result, ok, err, length, length-append, take, take-append, arith,
  Bool-cases, inl, inr, ltb, if◌then◌else◌,
}
use komms_cli.Cli.Submit.Fee.{u64_mod, exact_fee, required_fee-eq-exact_fee, exact_fee-le}
use komms_cli.Cli.Submit.Pick.{
  PickError, insufficient, Selection, sort_by_amount, pick_from, pick_utxos,
}
use komms_cli.Cli.Submit.Sorted.{
  Choice, total, total-append, total-sort, length-sort, Choice-le-sort, length-Choice,
}

module _ {Entry : Type 0} (amount : Entry → ℕ) (payload_len priority_fee : ℕ) where
  -- The fee of a transaction that spends so many entries to one output.
  abbrev pub fee_of : ℕ → ℕ
  fee_of n = exact_fee n 1 payload_len priority_fee

  -- Neither the sum of the entries nor the fee for all of them reaches 2^64.
  pub record Fits (entries : List Entry) : Type 0 where
    pub sum_fits : total amount entries < u64_mod
    pub fee_fits : fee_of (length entries) < u64_mod

  abbrev pub selection : List Entry → Selection Entry
  selection picked = record {
    picked = picked;
    total_in = total amount picked;
    fee = fee_of (length picked);
    output_value = total amount picked - fee_of (length picked);
  }

  -- One round of the loop, on numbers that do not wrap.
  pick_from_step :
      (picked : List Entry) (e : Entry) (v : List Entry)
      → total amount (picked ++ (e ∷ [])) < u64_mod
      → fee_of (length (picked ++ (e ∷ []))) < u64_mod
      → pick_from amount payload_len priority_fee picked (total amount picked) (e ∷ v) ≡ (
          if ltb (fee_of (length (picked ++ (e ∷ [])))) (total amount (picked ++ (e ∷ [])))
          then ok (selection (picked ++ (e ∷ [])))
          else pick_from amount payload_len priority_fee
              (picked ++ (e ∷ []))
              (total amount (picked ++ (e ∷ [])))
              v)
  unfolding pick_from
  pick_from_step picked e v hs hf =
      let sum : (total amount picked + amount e) % u64_mod ≡ total amount (picked ++ (e ∷ [])) =
        omega (arith, total-append amount picked (e ∷ [])) in
      let fee =
        required_fee-eq-exact_fee (length (picked ++ (e ∷ []))) 1 payload_len priority_fee hf in
      rw (sum, fee) (ground arith)

  -- The entries in front cover their fee.
  abbrev pub Covers : List Entry → Type 0
  Covers xs = fee_of (length xs) < total amount xs

  -- The first so many of `all`, from `from` on and below `upto`, do not cover their fee.
  abbrev pub NoneCovers : ℕ → ℕ → List Entry → Type 0
  NoneCovers from upto all =
      (k : ℕ) → from < k → k < upto → k ≤ length all → total amount (take k all) ≤ fee_of k

  -- What the loop has found: the shortest front that covers its fee, or that none does.
  pub data Found (from : ℕ) (all : List Entry) : Result PickError (Selection Entry) → Type 0 where
    found :
        {r : Result PickError (Selection Entry)} (picked back : List Entry)
        → r ≡ ok (selection picked)
        → all ≡ picked ++ back
        → Covers picked
        → NoneCovers from (length picked) all
        → Found from all r
    nothing_covers :
        {r : Result PickError (Selection Entry)}
        → r ≡ err insufficient
        → NoneCovers from (suc (length all)) all
        → Found from all r

  NoneCovers-step :
      (from upto : ℕ) (picked back all : List Entry)
      → all ≡ picked ++ back
      → length picked ≡ suc from
      → total amount picked ≤ fee_of (length picked)
      → NoneCovers (suc from) upto all
      → NoneCovers from upto all
  NoneCovers-step from upto picked back all e len short none_above k low high within =
      elim (Bool-cases (ltb (suc from) k)) [
        | inl h ↦ none_above k (ground arith) high within
        | inr h ↦
            let same : k ≡ length picked = ground arith in
            let front : take k all ≡ picked =
              ap (take k) e ∙ take-append k picked back (sym same) in
            rw (front, same) short
      ]

  -- A front that does not cover its fee leaves the search to the longer ones.
  Found-later :
      (from : ℕ) (next v all : List Entry) {r r' : Result PickError (Selection Entry)}
      → all ≡ next ++ v
      → length next ≡ suc from
      → total amount next ≤ fee_of (length next)
      → r ≡ r'
      → Found (suc from) all r'
      → Found from all r
  Found-later from next v all e len short same (found picked back er eb covers none_before) =
      found picked back (same ∙ er) eb covers
        (NoneCovers-step from (length picked) next v all e len short none_before)
  Found-later from next v all e len short same (nothing_covers er none_before) =
      nothing_covers (same ∙ er)
        (NoneCovers-step from (suc (length all)) next v all e len short none_before)

  pick_from_nil :
      (picked : List Entry) (sum : ℕ)
      → pick_from amount payload_len priority_fee picked sum [] ≡ err insufficient
  unfolding pick_from
  pick_from_nil picked sum = refl

  pick_from-Found :
      (from : ℕ) (picked v all : List Entry)
      → length picked ≡ from
      → all ≡ picked ++ v
      → Fits all
      → Found from all (pick_from amount payload_len priority_fee picked (total amount picked) v)
  pick_from-Found from picked [] all hn e f =
      nothing_covers (pick_from_nil picked (total amount picked))
        (λ k low high within. absurd (omega (arith, ap length (e ∙ append-nil picked))))
  pick_from-Found from picked (x ∷ v) all hn e f =
      let next : List Entry = picked ++ (x ∷ []) in
      let e' : all ≡ next ++ v = e ∙ sym (append_assoc picked (x ∷ []) v) in
      let hl : length next ≡ suc from = omega (arith, length-append picked (x ∷ [])) in
      let sum : total amount next < u64_mod =
        omega (arith, f.sum_fits, ap (total amount) e', total-append amount next v) in
      let within : length next ≤ length all = omega (arith, ap length e', length-append next v) in
      let fee : fee_of (length next) < u64_mod = omega (
        arith,
        f.fee_fits,
        exact_fee-le (length next) (length all) 1 payload_len priority_fee within,
      ) in
      let step = pick_from_step picked x v sum fee in
      elim (Bool-cases (ltb (fee_of (length next)) (total amount next))) [
        | inl h ↦
            found next v (rw h at step) e' (ground arith)
              (λ k low high in_all. absurd (omega arith))
        | inr h ↦
            Found-later from next v all e' hl (ground arith) (rw h at step)
              (pick_from-Found (suc from) next v all hl e' f)
      ]

  Fits-sort : (entries : List Entry) → Fits entries → Fits (sort_by_amount amount entries)
  Fits-sort entries f = record {
    sum_fits = omega (arith, total-sort amount entries, f.sum_fits);
    fee_fits = subst (λ n. fee_of n < u64_mod) (sym (length-sort amount entries)) f.fee_fits;
  }

  pick_utxos-Found :
      (entries : List Entry)
      → Fits entries
      → Found 0 (sort_by_amount amount entries) (pick_utxos amount entries payload_len priority_fee)
  unfolding pick_utxos
  pick_utxos-Found entries f =
      pick_from-Found 0 [] (sort_by_amount amount entries) _ refl refl (Fits-sort entries f)

  -- What the chosen entries are and pay: the largest ones, their sum, the relay fee for them with the
  -- priority fee, and an output of all the rest, which is not zero. Neither the sum of all entries nor the
  -- fee for all of them reaches 2^64.
  pub pick_utxos_sound :
      (entries : List Entry) (s : Selection Entry)
      → Fits entries
      → pick_utxos amount entries payload_len priority_fee ≡ ok s
      → (back : List Entry) × (sort_by_amount amount entries ≡ s.picked ++ back)
        × (s.total_in ≡ total amount s.picked)
        × (s.fee ≡ fee_of (length s.picked))
        × (s.total_in ≡ s.fee + s.output_value)
        × (0 < s.output_value)
  pick_utxos_sound entries s f e = taken (pick_utxos-Found entries f) e
    where
      taken :
          {r : Result PickError (Selection Entry)}
          → Found 0 (sort_by_amount amount entries) r
          → r ≡ ok s
          → (back : List Entry) × (sort_by_amount amount entries ≡ s.picked ++ back)
            × (s.total_in ≡ total amount s.picked)
            × (s.fee ≡ fee_of (length s.picked))
            × (s.total_in ≡ s.fee + s.output_value)
            × (0 < s.output_value)
      taken (found picked back er eb covers none_before) e =
          let same : selection picked ≡ s = cc (er, e) in
          rw (← same) (back, eb, refl, refl, omega arith, omega arith)
      taken (nothing_covers er none_before) e = cc

  -- No choice does better. A choice of at least one entry that covers its fee makes the pick succeed, and
  -- with at most as many entries as the choice has. Neither the sum of all entries nor the fee for all of
  -- them reaches 2^64.
  pub pick_utxos_optimal :
      (entries choice : List Entry)
      → Fits entries
      → Choice choice entries
      → 0 < length choice
      → Covers choice
      → (s : Selection Entry) × (pick_utxos amount entries payload_len priority_fee ≡ ok s)
        × (length s.picked ≤ length choice)
  pick_utxos_optimal entries choice f c some_entry covers = best (pick_utxos-Found entries f)
    where
      front :
          total amount choice ≤ total amount (take (length choice) (sort_by_amount amount entries))
      front = Choice-le-sort amount c

      inside : length choice ≤ length (sort_by_amount amount entries)
      inside = omega (arith, length-sort amount entries, length-Choice amount c)

      best :
          {r : Result PickError (Selection Entry)}
          → Found 0 (sort_by_amount amount entries) r
          → (s : Selection Entry) × (r ≡ ok s) × (length s.picked ≤ length choice)
      best (found picked back er eb picked_covers none_before) = (
        selection picked,
        er,
        elim (Bool-cases (ltb (length choice) (length picked))) [
          | inl h ↦
              absurd
                (omega (arith, none_before (length choice) some_entry (ground arith) inside, front))
          | inr h ↦ ground arith
        ],
      )
      best (nothing_covers er none_before) = absurd (
          omega
            (arith, none_before (length choice) some_entry (omega (arith, inside)) inside, front))
