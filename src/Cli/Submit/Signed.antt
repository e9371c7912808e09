-- ===== src/Cli/Submit/Signed.antt =====
-- src/submit.rs: what signing the inputs does.
use komms_cli.Base.{
  ℕ, zero, suc, ◌+◌, ◌<◌, ◌≡◌, refl, sym, ap, ◌∙◌, List, [], ◌∷◌, ◌++◌, some, ok, ok_or,
  ok_or-eq-ok, ok-injective, >>=-eq-ok, length, length-append, map, All, arith, subst, ◌⊎◌, inl,
  inr,
}
use komms_cli.Cli.Submit.Transaction.{
  ScriptClass, TransactionInput, Kaspa, get_elem?, set_script, Tx, Entry, signature_script,
  sign_inputs, pub_key, pub_key_ecdsa, script_hash, non_standard, missing_entry,
}
use komms_cli.Cli.Submit.Scripts.{
  AllFrom, AllFrom-get_elem, All-AllFrom, get_elem_lt, outpoints, cleared, outpoints-cleared,
  length-cleared, cleared-set_script, set_script_here, set_script_elsewhere,
}

lt_cases : (j i : ℕ) → j < suc i → (j < i) ⊎ (j ≡ i)
lt_cases zero zero h = inr refl
lt_cases zero (suc i) h = inl (omega arith)
lt_cases (suc j) zero h = absurd (omega arith)
lt_cases (suc j) (suc i) h = elim (lt_cases j i (omega arith)) [
  | inl l ↦ inl (omega arith)
  | inr e ↦ inr (ap suc e)
]

module _ (K : Kaspa) where
  -- What a signature hash is taken of: the transaction without its scripts and its mass.
  abbrev pub unscripted : Tx K → Tx K
  unscripted tx = record tx { inputs = map cleared tx.inputs; mass = 0 }

  pub same_outpoints :
      (a b : Tx K) → unscripted a ≡ unscripted b → outpoints a.inputs ≡ outpoints b.inputs
  same_outpoints a b e =
      sym (outpoints-cleared a.inputs)
      ∙ ap (λ (t : Tx K). outpoints t.inputs) e
      ∙ outpoints-cleared b.inputs

  same_length : (a b : Tx K) → unscripted a ≡ unscripted b → length a.inputs ≡ length b.inputs
  same_length a b e =
      sym (length-cleared a.inputs) ∙ ap (λ (t : Tx K). length t.inputs) e ∙ length-cleared b.inputs

  -- Signing changes nothing but the scripts.
  pub unscripted-sign_inputs :
      (key : K.SecretKey) (entries : List (Entry K)) (left i : ℕ) (tx signed : Tx K)
      → sign_inputs K key entries left i tx ≡ ok signed
      → unscripted signed ≡ unscripted tx
  unfolding sign_inputs
  unscripted-sign_inputs key entries zero i tx signed e =
      ap unscripted (sym (ok-injective tx signed e))
  unscripted-sign_inputs key entries (suc left) i tx signed e =
      let (entry, e₁, r₁) = >>=-eq-ok (ok_or (get_elem? entries i) (missing_entry i)) _ e in
      let (s, e₂, r₂) =
        >>=-eq-ok (signature_script K key tx entries i (K.from_script entry.script_public_key)) _
          r₁ in
      unscripted-sign_inputs key entries left (suc i)
        (record tx { inputs = set_script i s tx.inputs }) signed r₂
      ∙ ap (λ xs. record tx { inputs = xs; mass = 0 }) (cleared-set_script i s tx.inputs)

  -- A script as the node wants it for an output of that class: it pushes 65 bytes, the signature by the key of
  -- the hash for input `i` and the hash type.
  pub data IsSignature (key : K.SecretKey) (tx : Tx K) (entries : List (Entry K)) (i : ℕ)
      : ScriptClass → List ℕ → Type 0 where
    schnorr :
        IsSignature key tx entries i pub_key (
          65
          ∷ (K.sign_schnorr key (K.schnorr_signature_hash tx entries i) ++ (K.sig_hash_all ∷ [])))
    ecdsa :
        IsSignature key tx entries i pub_key_ecdsa
          (65 ∷ (K.sign_ecdsa key (K.ecdsa_signature_hash tx entries i) ++ (K.sig_hash_all ∷ [])))

  -- Input `i` spends entry `i` by a signature of the right kind.
  abbrev pub SignsInput :
      K.SecretKey → Tx K → List (Entry K) → ℕ → TransactionInput K.Outpoint → Type 0
  SignsInput key tx entries i x =
      (entry : Entry K) × (get_elem? entries i ≡ some entry)
      × IsSignature key tx entries i (K.from_script entry.script_public_key) x.signature_script

  signature_script-IsSignature :
      (key : K.SecretKey) (tx : Tx K) (entries : List (Entry K)) (i : ℕ) (class : ScriptClass)
      (s : List ℕ)
      → signature_script K key tx entries i class ≡ ok s
      → IsSignature key tx entries i class s
  unfolding signature_script
  signature_script-IsSignature key tx entries i pub_key s e =
      subst (IsSignature key tx entries i pub_key) (ok-injective _ s e) schnorr
  signature_script-IsSignature key tx entries i pub_key_ecdsa s e =
      subst (IsSignature key tx entries i pub_key_ecdsa) (ok-injective _ s e) ecdsa
  signature_script-IsSignature key tx entries i script_hash s e = cc e
  signature_script-IsSignature key tx entries i non_standard s e = cc e

  module _ (schnorr_size : (k : K.SecretKey) (m : List ℕ) → length (K.sign_schnorr k m) ≡ 64)
      (ecdsa_size : (k : K.SecretKey) (m : List ℕ) → length (K.sign_ecdsa k m) ≡ 64) where
    length-IsSignature :
        {key : K.SecretKey} {tx : Tx K} {entries : List (Entry K)} {i : ℕ} {class : ScriptClass}
        {s : List ℕ}
        → IsSignature key tx entries i class s
        → length s ≡ 66
    length-IsSignature {key} {tx} {entries} {i} schnorr =
        let hash = K.schnorr_signature_hash tx entries i in
        omega (
          arith,
          length-append (K.sign_schnorr key hash) (K.sig_hash_all ∷ []),
          schnorr_size key hash,
        )
    length-IsSignature {key} {tx} {entries} {i} ecdsa =
        let hash = K.ecdsa_signature_hash tx entries i in
        omega
          (arith, length-append (K.sign_ecdsa key hash) (K.sig_hash_all ∷ []), ecdsa_size key hash)

    pub scripts_sized :
        (key : K.SecretKey) (tx : Tx K) (entries : List (Entry K)) (i : ℕ)
        (xs : List (TransactionInput K.Outpoint))
        → AllFrom (SignsInput key tx entries) i xs
        → All (λ x. length x.signature_script ≡ 66) xs
    scripts_sized key tx entries = All-AllFrom (λ i x (entry, e, s). length-IsSignature s)

  module _
      (schnorr_unscripted : (tx : Tx K) (entries : List (Entry K)) (i : ℕ)
        → K.schnorr_signature_hash tx entries i
          ≡ K.schnorr_signature_hash (unscripted tx) entries i)
      (ecdsa_unscripted : (tx : Tx K) (entries : List (Entry K)) (i : ℕ)
        → K.ecdsa_signature_hash tx entries i ≡ K.ecdsa_signature_hash (unscripted tx) entries i)
      (key : K.SecretKey) (entries : List (Entry K)) where
    -- A signature is good for any transaction that differs in scripts and mass.
    IsSignature-unscripted :
        (a b : Tx K) (i : ℕ) {class : ScriptClass} {s : List ℕ}
        → unscripted a ≡ unscripted b
        → IsSignature key a entries i class s
        → IsSignature key b entries i class s
    IsSignature-unscripted a b i e schnorr =
        let same : K.schnorr_signature_hash b entries i ≡ K.schnorr_signature_hash a entries i =
          schnorr_unscripted b entries i
          ∙ ap (λ t. K.schnorr_signature_hash t entries i) (sym e)
          ∙ sym (schnorr_unscripted a entries i) in
        subst
          (λ h.
            IsSignature key b entries i pub_key
              (65 ∷ (K.sign_schnorr key h ++ (K.sig_hash_all ∷ []))))
          same schnorr
    IsSignature-unscripted a b i e ecdsa =
        let same : K.ecdsa_signature_hash b entries i ≡ K.ecdsa_signature_hash a entries i =
          ecdsa_unscripted b entries i
          ∙ ap (λ t. K.ecdsa_signature_hash t entries i) (sym e)
          ∙ sym (ecdsa_unscripted a entries i) in
        subst
          (λ h.
            IsSignature key b entries i pub_key_ecdsa
              (65 ∷ (K.sign_ecdsa key h ++ (K.sig_hash_all ∷ []))))
          same ecdsa

    -- The inputs before `i` are signed, over the body of `goal`.
    abbrev Signed : Tx K → ℕ → List (TransactionInput K.Outpoint) → Type 0
    Signed goal i xs =
        (j : ℕ) (x : TransactionInput K.Outpoint)
        → j < i
        → get_elem? xs j ≡ some x
        → SignsInput key goal entries j x

    Signed-set_script :
        (goal : Tx K) (i : ℕ) (s : List ℕ) (entry : Entry K)
        (xs : List (TransactionInput K.Outpoint))
        → get_elem? entries i ≡ some entry
        → IsSignature key goal entries i (K.from_script entry.script_public_key) s
        → Signed goal i xs
        → Signed goal (suc i) (set_script i s xs)
    Signed-set_script goal i s entry xs e signature before j x below at =
        elim (lt_cases j i below) [
          | inl l ↦ before j x l (sym (set_script_elsewhere i j s xs l) ∙ at)
          | inr same ↦
              let here : get_elem? (set_script i s xs) i ≡ some x =
                ap (λ k. get_elem? (set_script i s xs) k) (sym same) ∙ at in
              let script = set_script_here i s xs x here in
              subst (λ k. SignsInput key goal entries k x) (sym same)
                (
                  entry,
                  e,
                  subst (IsSignature key goal entries i (K.from_script entry.script_public_key))
                      script signature,
                )
        ]

    Signed-sign_inputs :
        (goal : Tx K) (left i : ℕ) (tx signed : Tx K)
        → unscripted tx ≡ unscripted goal
        → Signed goal i tx.inputs
        → sign_inputs K key entries left i tx ≡ ok signed
        → Signed goal (i + left) signed.inputs
    unfolding sign_inputs
    Signed-sign_inputs goal zero i tx signed body before e = λ j x below at.
        before j x (omega arith)
          (ap (λ (t : Tx K). get_elem? t.inputs j) (ok-injective tx signed e) ∙ at)
    Signed-sign_inputs goal (suc left) i tx signed body before e =
        let (entry, e₁, r₁) = >>=-eq-ok (ok_or (get_elem? entries i) (missing_entry i)) _ e in
        let (s, e₂, r₂) =
          >>=-eq-ok (signature_script K key tx entries i (K.from_script entry.script_public_key)) _
            r₁ in
        let signature =
          IsSignature-unscripted tx goal i body
            (signature_script-IsSignature key tx entries i _ s e₂) in
        let rest =
          Signed-sign_inputs goal left (suc i) (record tx { inputs = set_script i s tx.inputs })
            signed
            (ap (λ xs. record tx { inputs = xs; mass = 0 }) (cleared-set_script i s tx.inputs)
              ∙ body)
            (Signed-set_script goal i s entry tx.inputs (ok_or-eq-ok _ (missing_entry i) entry e₁)
              signature before)
            r₂ in
        λ j x below at. rest j x (omega arith) at

    -- Each input is signed over the transaction that comes out.
    pub sign_inputs-SignsInput :
        (tx signed goal : Tx K)
        → unscripted goal ≡ unscripted signed
        → sign_inputs K key entries (length tx.inputs) 0 tx ≡ ok signed
        → AllFrom (SignsInput key goal entries) 0 signed.inputs
    sign_inputs-SignsInput tx signed goal same e =
        let kept = unscripted-sign_inputs key entries (length tx.inputs) 0 tx signed e in
        let all =
          Signed-sign_inputs goal (length tx.inputs) 0 tx signed (sym (same ∙ kept))
            (λ j x below at. absurd (omega arith)) e in
        AllFrom-get_elem (SignsInput key goal entries) 0 signed.inputs (λ j x at.
          subst (λ k. SignsInput key goal entries k x) {x = j} {y = 0 + j} (omega arith)
            (all j x (omega (arith, get_elem_lt signed.inputs j x at, same_length signed tx kept))
              at))
