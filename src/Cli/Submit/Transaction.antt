-- ===== src/Cli/Submit/Transaction.antt =====
-- src/submit.rs: `submit_komms_payload`: the transaction that is built, signed and submitted.
use komms_cli.Base.{
  ℕ, zero, suc, List, [], ◌∷◌, ◌++◌, Option, none, some, Result, ok, err, ◌>>=◌, ◌>>◌, map_err,
  ok_or, guard, ◌==◌, length, map,
}
use komms_cli.Hex.{FasterHex}
use komms_cli.Protocol.Event.{ParsedKommsEvent, ValidationError}
use komms_cli.Protocol.Ciborium.{Ciborium}
use komms_cli.Protocol.Encode.{encode_komms_payload}
use komms_cli.Cli.Addresses.{KaspaAddresses}
use komms_cli.Cli.Client.{NetworkType, KaspaRpc}
use komms_cli.Cli.Hexutil.{HexError, parse_hex_bytes}
use komms_cli.Cli.Submit.Pick.{PickError, Selection, pick_utxos}

pub data ScriptClass : Type 0 where
  pub_key pub_key_ecdsa script_hash non_standard : ScriptClass

pub record Utxo (Outpoint Script : Type 0) : Type 0 where
  pub outpoint : Outpoint
  pub amount : ℕ
  pub script_public_key : Script

pub record TransactionInput (Outpoint : Type 0) : Type 0 where
  pub previous_outpoint : Outpoint
  pub signature_script : List ℕ
  pub sequence : ℕ
  pub sig_op_count : ℕ

pub record TransactionOutput (Script : Type 0) : Type 0 where
  pub value : ℕ
  pub script_public_key : Script

pub record Transaction (Outpoint Script : Type 0) : Type 0 where
  pub version : ℕ
  pub inputs : List (TransactionInput Outpoint)
  pub outputs : List (TransactionOutput Script)
  pub lock_time : ℕ
  pub subnetwork_id : List ℕ
  pub gas : ℕ
  pub payload : List ℕ
  pub mass : ℕ

-- The Kaspa crates and the node behind a client. A signature hash is that of an input of a transaction with
-- its entries; `to_string` is the text of a transaction id.
pub record Kaspa : Type 1 where
  pub addresses : KaspaAddresses
  pub rpc : KaspaRpc
  pub Script : Type 0
  pub Outpoint : Type 0
  pub SecretKey : Type 0
  pub tx_version : ℕ
  pub subnetwork_id_native : List ℕ
  pub sig_hash_all : ℕ
  pub from_slice : List ℕ → Option SecretKey
  pub get_utxos_by_addresses : rpc.Client → addresses.Address → Option (List (Utxo Outpoint Script))
  pub pay_to_address_script : addresses.Address → Script
  pub from_script : Script → ScriptClass
  pub schnorr_signature_hash :
      Transaction Outpoint Script → List (Utxo Outpoint Script) → ℕ → List ℕ
  pub ecdsa_signature_hash : Transaction Outpoint Script → List (Utxo Outpoint Script) → ℕ → List ℕ
  pub sign_schnorr : SecretKey → List ℕ → List ℕ
  pub sign_ecdsa : SecretKey → List ℕ → List ℕ
  pub normalized_mass :
      NetworkType → Transaction Outpoint Script → List (Utxo Outpoint Script) → Option ℕ
  pub submit_transaction : rpc.Client → Transaction Outpoint Script → Option (List ℕ)
  pub to_string : List ℕ → List ℕ

pub data SubmitError : Type 0 where
  encode : ValidationError → SubmitError
  hex : HexError → SubmitError
  bad_key_length invalid_key get_utxos_failed mass_failed submit_failed : SubmitError
  selection : PickError → SubmitError
  missing_entry unsupported_script : ℕ → SubmitError

abbrev pub get_elem? : {A : Type 0} → List A → ℕ → Option A
get_elem? [] i = none
get_elem? (x ∷ xs) zero = some x
get_elem? (x ∷ xs) (suc i) = get_elem? xs i

-- `signable.tx.inputs[i].signature_script = signature_script`
unfoldable pub set_script :
    {Outpoint : Type 0}
    → ℕ
    → List ℕ
    → List (TransactionInput Outpoint)
    → List (TransactionInput Outpoint)
set_script i s [] = []
set_script zero s (x ∷ xs) = record x { signature_script = s } ∷ xs
set_script (suc i) s (x ∷ xs) = x ∷ set_script i s xs

module _ (K : Kaspa) where
  open K use {Script, Outpoint, SecretKey}

  abbrev pub Address : Type 0
  Address = K.addresses.Address

  abbrev pub Tx : Type 0
  Tx = Transaction Outpoint Script

  abbrev pub Entry : Type 0
  Entry = Utxo Outpoint Script

  abbrev pub amount_of : Entry → ℕ
  amount_of e = e.amount

  -- `once(65u8).chain(sig).chain([sighash_byte])`
  abbrev pub script_of : List ℕ → List ℕ
  script_of sig = 65 ∷ (sig ++ (K.sig_hash_all ∷ []))

  unfoldable pub signature_script :
      SecretKey → Tx → List Entry → ℕ → ScriptClass → Result SubmitError (List ℕ)
  signature_script key tx entries i pub_key =
      ok (script_of (K.sign_schnorr key (K.schnorr_signature_hash tx entries i)))
  signature_script key tx entries i pub_key_ecdsa =
      ok (script_of (K.sign_ecdsa key (K.ecdsa_signature_hash tx entries i)))
  signature_script key tx entries i script_hash = err (unsupported_script i)
  signature_script key tx entries i non_standard = err (unsupported_script i)

  -- `for i in 0..signable.tx.inputs.len()`: how many inputs are left, and `i`.
  unfoldable pub sign_inputs : SecretKey → List Entry → ℕ → ℕ → Tx → Result SubmitError Tx
  sign_inputs key entries zero i tx = ok tx
  sign_inputs key entries (suc left) i tx = do
    entry ← ok_or (get_elem? entries i) (missing_entry i)
    s ← signature_script key tx entries i (K.from_script entry.script_public_key)
    sign_inputs key entries left (suc i) (record tx { inputs = set_script i s tx.inputs })

  -- `TransactionInput::new(TransactionOutpoint::from(e.outpoint), vec![], 0, 1)`
  abbrev pub unsigned_input : Entry → TransactionInput Outpoint
  unsigned_input e = record {
    previous_outpoint = e.outpoint;
    signature_script = [];
    sequence = 0;
    sig_op_count = 1;
  }

  unfoldable pub unsigned_transaction : Address → Selection Entry → List ℕ → Tx
  unsigned_transaction change_address s payload = record {
    version = K.tx_version;
    inputs = map unsigned_input s.picked;
    outputs =
        record {
          value = s.output_value;
          script_public_key = K.pay_to_address_script change_address;
        }
        ∷ [];
    lock_time = 0;
    subnetwork_id = K.subnetwork_id_native;
    gas = 0;
    payload = payload;
    mass = 0;
  }

  module _ (H : FasterHex) (C : Ciborium) (client : K.rpc.Client) (network : NetworkType) where
    -- All but the last call: the transaction with its mass set.
    unfoldable pub build_transaction :
        ParsedKommsEvent C.Value → Address → List ℕ → ℕ → Result SubmitError Tx
    build_transaction ev change_address private_key_sechex priority_fee = do
      payload ← map_err encode (encode_komms_payload C ev)
      sk ← map_err hex (parse_hex_bytes H private_key_sechex)
      guard (length sk == 32) bad_key_length
      secret_key ← ok_or (K.from_slice sk) invalid_key
      entries ← ok_or (K.get_utxos_by_addresses client change_address) get_utxos_failed
      s ← map_err selection (pick_utxos amount_of entries (length payload) priority_fee)
      let unsigned = unsigned_transaction change_address s payload
      signed ← sign_inputs secret_key s.picked (length unsigned.inputs) 0 unsigned
      mass ← ok_or (K.normalized_mass network signed s.picked) mass_failed
      ok (record signed { mass = mass })

    unfoldable pub submit_komms_payload :
        ParsedKommsEvent C.Value → Address → List ℕ → ℕ → Result SubmitError (List ℕ)
    submit_komms_payload ev change_address private_key_sechex priority_fee = do
      tx ← build_transaction ev change_address private_key_sechex priority_fee
      ok_or (K.submit_transaction client tx) submit_failed
