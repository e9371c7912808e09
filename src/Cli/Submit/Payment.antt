-- ===== src/Cli/Submit/Payment.antt =====
-- src/submit.rs: what `submit_komms_payload` submits.
use komms_cli.Base.{
  ℕ, ◌+◌, ◌<◌, ◌≤◌, ◌≡◌, refl, sym, ap, ◌∙◌, List, [], ◌∷◌, ◌++◌, ok, map_err, map_err-eq-ok,
  ok-injective, ok_or-eq-ok, ok_or, guard, >>=-eq-ok, >>-eq-ok, ◌==◌, length, map, All, some, subst,
}
use komms_cli.Hex.{FasterHex}
use komms_cli.Protocol.Event.{ParsedKommsEvent}
use komms_cli.Protocol.Ciborium.{Ciborium}
use komms_cli.Protocol.Encode.{encode_komms_payload}
use komms_cli.Cli.Hexutil.{parse_hex_bytes}
use komms_cli.Cli.Client.{NetworkType}
use komms_cli.Cli.Submit.Fee.{exact_fee}
use komms_cli.Cli.Submit.Sorted.{
  total, IsDescending, sort-IsDescending, IsDescending-append, sort_by_amount-Permᴰ,
}
use komms_cli.Cli.Submit.Pick.{Selection, pick_utxos}
use komms_cli.Cli.Submit.Laws.{Fits, pick_utxos_sound}
use komms_cli.Cli.Submit.Transaction.{
  Kaspa, Tx, Entry, amount_of, sign_inputs, unsigned_input, unsigned_transaction, build_transaction,
  encode, hex, bad_key_length, invalid_key, get_utxos_failed, selection, mass_failed,
}
use komms_cli.Cli.Submit.Scripts.{AllFrom, outpoints}
use komms_cli.Cli.Submit.Signed.{
  SignsInput, unscripted, same_outpoints, unscripted-sign_inputs, sign_inputs-SignsInput,
  scripts_sized,
}
use mathlib.Core.List.{Permᴰ}

module _ (K : Kaspa) where
  abbrev pub spent_outpoints : List (Entry K) → List K.Outpoint
  spent_outpoints picked = map (λ e. e.outpoint) picked

  outpoints-map :
      (picked : List (Entry K)) → outpoints (map (unsigned_input K) picked) ≡ spent_outpoints picked
  outpoints-map [] = refl
  outpoints-map (e ∷ es) = ap (λ t. e.outpoint ∷ t) (outpoints-map es)

-- A transaction that carries the event and pays for itself from the largest entries of the address: no entry
-- that is kept back is larger than one that is spent. Each input is signed by the key that is given, for its
-- own entry and over this transaction.
pub record IsPayment (K : Kaspa) (H : FasterHex) (C : Ciborium) (client : K.rpc.Client)
    (ev : ParsedKommsEvent C.Value) (change_address : K.addresses.Address)
    (private_key_sechex : List ℕ) (priority_fee : ℕ) (tx : Tx K) : Type 0 where
  pub entries : List (Entry K)
  pub picked : List (Entry K)
  pub back : List (Entry K)
  pub value : ℕ
  pub raw_key : List ℕ
  pub key : K.SecretKey
  pub carries : encode_komms_payload C ev ≡ ok tx.payload
  pub funds : K.get_utxos_by_addresses client change_address ≡ some entries
  pub divides : Permᴰ entries (picked ++ back)
  pub largest : All (λ e. All (λ other. other.amount ≤ e.amount) back) picked
  pub spends : outpoints tx.inputs ≡ spent_outpoints K picked
  pub pays :
      tx.outputs
      ≡ record { value = value; script_public_key = K.pay_to_address_script change_address } ∷ []
  pub balance :
      total (amount_of K) picked
      ≡ exact_fee (length picked) 1 (length tx.payload) priority_fee + value
  pub positive : 0 < value
  pub reads : parse_hex_bytes H private_key_sechex ≡ ok raw_key
  pub keyed : K.from_slice raw_key ≡ some key
  pub signed : AllFrom (SignsInput K key tx picked) 0 tx.inputs
  pub sized : All (λ x. length x.signature_script ≡ 66) tx.inputs

module _ (K : Kaspa) (H : FasterHex) (C : Ciborium) (client : K.rpc.Client) (network : NetworkType)
    (ev : ParsedKommsEvent C.Value) (change_address : K.addresses.Address)
    (private_key_sechex : List ℕ) (priority_fee : ℕ) where
  -- The steps of a transaction that was built.
  record Steps (tx : Tx K) : Type 0 where
    payload : List ℕ
    raw_key : List ℕ
    key : K.SecretKey
    entries : List (Entry K)
    chosen : Selection (Entry K)
    signed : Tx K
    mass : ℕ
    reads : parse_hex_bytes H private_key_sechex ≡ ok raw_key
    keyed : K.from_slice raw_key ≡ some key
    encoded : encode_komms_payload C ev ≡ ok payload
    funds : K.get_utxos_by_addresses client change_address ≡ some entries
    picks : pick_utxos (amount_of K) entries (length payload) priority_fee ≡ ok chosen
    signs :
        sign_inputs K key chosen.picked
          (length (unsigned_transaction K change_address chosen payload).inputs)
          0
          (unsigned_transaction K change_address chosen payload)
        ≡ ok signed
    result : record signed { mass = mass } ≡ tx

  build_transaction_inv :
      (tx : Tx K)
      → build_transaction K H C client network ev change_address private_key_sechex priority_fee
        ≡ ok tx
      → Steps tx
  unfolding build_transaction
  build_transaction_inv tx e =
      let (payload, e₁, r₁) = >>=-eq-ok (map_err encode (encode_komms_payload C ev)) _ e in
      let (sk, e₂, r₂) = >>=-eq-ok (map_err hex (parse_hex_bytes H private_key_sechex)) _ r₁ in
      let (e₃, r₃) = >>-eq-ok (guard (length sk == 32) bad_key_length) r₂ in
      let (key, e₄, r₄) = >>=-eq-ok (ok_or (K.from_slice sk) invalid_key) _ r₃ in
      let (entries, e₅, r₅) =
        >>=-eq-ok (ok_or (K.get_utxos_by_addresses client change_address) get_utxos_failed) _ r₄ in
      let (s, e₆, r₆) =
        >>=-eq-ok
          (map_err selection (pick_utxos (amount_of K) entries (length payload) priority_fee)) _
          r₅ in
      let unsigned = unsigned_transaction K change_address s payload in
      let (signed, e₇, r₇) =
        >>=-eq-ok (sign_inputs K key s.picked (length unsigned.inputs) 0 unsigned) _ r₆ in
      let (mass, e₈, r₈) =
        >>=-eq-ok (ok_or (K.normalized_mass network signed s.picked) mass_failed) _ r₇ in
      record {
        payload = payload;
        raw_key = sk;
        key = key;
        entries = entries;
        chosen = s;
        signed = signed;
        mass = mass;
        reads = map_err-eq-ok hex _ sk e₂;
        keyed = ok_or-eq-ok (K.from_slice sk) invalid_key key e₄;
        encoded = map_err-eq-ok encode _ payload e₁;
        funds =
            ok_or-eq-ok (K.get_utxos_by_addresses client change_address) get_utxos_failed entries
              e₅;
        picks = map_err-eq-ok selection _ s e₆;
        signs = e₇;
        result = ok-injective _ tx r₈;
      }

  -- The transaction before it was signed, as far as the node cares.
  body_lem :
      (tx : Tx K) (t : Steps tx)
      → unscripted K tx ≡ unscripted K (unsigned_transaction K change_address t.chosen t.payload)
  body_lem tx t =
      let unsigned = unsigned_transaction K change_address t.chosen t.payload in
      ap (unscripted K) (sym t.result)
      ∙ unscripted-sign_inputs K t.key t.chosen.picked (length unsigned.inputs) 0 unsigned t.signed
          t.signs

  unsigned_inputs :
      (s : Selection (Entry K)) (payload : List ℕ)
      → outpoints (unsigned_transaction K change_address s payload).inputs
        ≡ spent_outpoints K s.picked
  unfolding unsigned_transaction
  unsigned_inputs s payload = outpoints-map K s.picked

  unsigned_outputs :
      (s : Selection (Entry K)) (payload : List ℕ)
      → (unsigned_transaction K change_address s payload).outputs
        ≡ record {
          value = s.output_value;
          script_public_key = K.pay_to_address_script change_address;
        }
          ∷ []
  unfolding unsigned_transaction
  unsigned_outputs s payload = refl

  unsigned_payload :
      (s : Selection (Entry K)) (payload : List ℕ)
      → (unsigned_transaction K change_address s payload).payload ≡ payload
  unfolding unsigned_transaction
  unsigned_payload s payload = refl

  payload_lem : (tx : Tx K) (t : Steps tx) → tx.payload ≡ t.payload
  payload_lem tx t =
      ap (λ (x : Tx K). x.payload) (body_lem tx t) ∙ unsigned_payload t.chosen t.payload

  -- The transaction that is submitted carries the encoded event. It spends entries of the change address, none
  -- of which is smaller than an entry that is kept back, and its one output gives the address back all but the
  -- relay fee and the priority fee, which is not zero. The script of each input is the signature, by the key
  -- that is given, of the hash of that input of this transaction, Schnorr or ECDSA as the script of the
  -- input's entry wants, and is 66 bytes long. Signatures are 64 bytes, a signature hash does not depend on the
  -- scripts and the mass, and neither the sum of the entries nor the fee for all of them reaches 2^64.
  pub build_transaction_sound :
      ((k : K.SecretKey) (m : List ℕ) → length (K.sign_schnorr k m) ≡ 64)
      → ((k : K.SecretKey) (m : List ℕ) → length (K.sign_ecdsa k m) ≡ 64)
      → ((tx : Tx K) (entries : List (Entry K)) (i : ℕ)
          → K.schnorr_signature_hash tx entries i
            ≡ K.schnorr_signature_hash (unscripted K tx) entries i)
      → ((tx : Tx K) (entries : List (Entry K)) (i : ℕ)
          → K.ecdsa_signature_hash tx entries i
            ≡ K.ecdsa_signature_hash (unscripted K tx) entries i)
      → ((entries : List (Entry K)) (payload : List ℕ)
          → K.get_utxos_by_addresses client change_address ≡ some entries
          → encode_komms_payload C ev ≡ ok payload
          → Fits (amount_of K) (length payload) priority_fee entries)
      → (tx : Tx K)
      → build_transaction K H C client network ev change_address private_key_sechex priority_fee
        ≡ ok tx
      → IsPayment K H C client ev change_address private_key_sechex priority_fee tx
  build_transaction_sound schnorr_size ecdsa_size schnorr_unscripted ecdsa_unscripted fits tx e =
      let t = build_transaction_inv tx e in
      let unsigned = unsigned_transaction K change_address t.chosen t.payload in
      let (back, p₁, p₂, p₃, p₄, p₅) =
        pick_utxos_sound (amount_of K) (length t.payload) priority_fee t.entries t.chosen
          (fits t.entries t.payload t.funds t.encoded) t.picks in
      let body = body_lem tx t in
      let signed =
        sign_inputs-SignsInput K schnorr_unscripted ecdsa_unscripted t.key t.chosen.picked unsigned
          t.signed tx (ap (unscripted K) (sym t.result)) t.signs in
      let inputs : t.signed.inputs ≡ tx.inputs = ap (λ (x : Tx K). x.inputs) t.result in
      let scripts = subst (AllFrom (SignsInput K t.key tx t.chosen.picked) 0) inputs signed in
      record {
        entries = t.entries;
        picked = t.chosen.picked;
        back = back;
        value = t.chosen.output_value;
        raw_key = t.raw_key;
        key = t.key;
        carries = t.encoded ∙ ap ok (sym (payload_lem tx t));
        funds = t.funds;
        divides = subst (Permᴰ t.entries) p₁ (sort_by_amount-Permᴰ (amount_of K) t.entries);
        largest =
            IsDescending-append (amount_of K) t.chosen.picked back
              (subst (IsDescending (amount_of K)) p₁ (sort-IsDescending (amount_of K) t.entries));
        spends = same_outpoints K tx unsigned body ∙ unsigned_inputs t.chosen t.payload;
        pays = ap (λ (x : Tx K). x.outputs) body ∙ unsigned_outputs t.chosen t.payload;
        balance =
            sym p₂
            ∙ p₄
            ∙ ap (λ f. f + t.chosen.output_value) p₃
            ∙ ap
                (λ (q : List ℕ).
                  exact_fee (length t.chosen.picked) 1 (length q) priority_fee
                  + t.chosen.output_value)
                (sym (payload_lem tx t));
        positive = p₅;
        reads = t.reads;
        keyed = t.keyed;
        signed = scripts;
        sized =
            scripts_sized K schnorr_size ecdsa_size t.key tx t.chosen.picked 0 tx.inputs scripts;
      }

  -- Whatever the amounts and the signatures are, the transaction carries the encoded event.
  pub build_transaction_carries :
      (tx : Tx K)
      → build_transaction K H C client network ev change_address private_key_sechex priority_fee
        ≡ ok tx
      → encode_komms_payload C ev ≡ ok tx.payload
  build_transaction_carries tx e =
      let t = build_transaction_inv tx e in t.encoded ∙ ap ok (sym (payload_lem tx t))
