-- ===== src/Examples/Submit.antt =====
-- The choice of UTXOs and the transaction, with amounts for entries and a toy of the Kaspa crates.
use komms_cli.Base.{
  ℕ, zero, suc, ◌≡◌, ◌≤◌, ◌<◌, refl, ◌∙◌, sym, ap, List, [], ◌∷◌, ◌++◌, none, some, true, ok,
  length, trim, skip_space, space_front, space_back, ok-injective, to_be_bytes, to_le_bytes, arith,
}
use komms_cli.Protocol.Encode.{
  encode_komms_payload, event_value, event_fields, pushed, v0_slots, v1_slots, v1_1_slots,
  role_slots,
}
use komms_cli.Protocol.EventType.{as_u8}
use komms_cli.Canonical.Grammar.{head, arg_code, arg_bytes}
use komms_cli.Cli.Hexutil.{parse_hex_bytes, bare, strip_0x}
use komms_cli.Cli.Submit.Fee.{required_fee, predicted_compute_mass, compute_mass, exact_fee}
use komms_cli.Cli.Submit.Pick.{Selection, insert, sort_by_amount, pick_from, pick_utxos}
use komms_cli.Cli.Submit.Sorted.{Choice, keep, skip, nothing, total}
use komms_cli.Cli.Submit.Laws.{Fits, pick_utxos_optimal}
use komms_cli.Cli.Submit.Transaction.{
  ScriptClass, pub_key, pub_key_ecdsa, Utxo, Kaspa, Tx, Entry, set_script, signature_script,
  sign_inputs, unsigned_transaction, build_transaction, amount_of,
}
use komms_cli.Cli.Submit.Payment.{IsPayment, build_transaction_sound}
use komms_cli.Examples.Cbor.{codec, write}
use komms_cli.Cli.Client.{NetworkType, KaspaRpc}
use komms_cli.Examples.Hex.{hexer, of_hex, to_hex, value}
use komms_cli.Examples.Post.{raw_changed}
use komms_cli.Examples.Payload.{repeat, message, raw_message, encoded_message}

abbrev id : ℕ → ℕ
id n = n

abbrev amounts : List ℕ
amounts = 50000 ∷ 3 ∷ 900000 ∷ []

amounts-Fits : Fits id 72 0 amounts
unfolding exact_fee
amounts-Fits = record { sum_fits = omega arith; fee_fits = omega arith }

abbrev selected : Selection ℕ
selected = record { picked = 900000 ∷ []; total_in = 900000; fee = 170700; output_value = 729300 }

selected_lem : pick_utxos id amounts 72 0 ≡ ok selected
unfolding pick_utxos pick_from sort_by_amount insert required_fee predicted_compute_mass
    compute_mass
selected_lem = refl

abbrev chosen : List ℕ
chosen = 50000 ∷ 900000 ∷ []

chosen-Choice : Choice chosen amounts
chosen-Choice = keep 50000 (skip 3 (keep 900000 nothing))

chosen_covers : exact_fee 2 1 72 0 < total id chosen
unfolding exact_fee
chosen_covers = omega arith

pick_utxos_optimal_example :
    (s : Selection ℕ) × (pick_utxos id amounts 72 0 ≡ ok s) × (length s.picked ≤ length chosen)
pick_utxos_optimal_example =
    pick_utxos_optimal id 72 0 amounts chosen amounts-Fits chosen-Choice (omega arith) chosen_covers

abbrev pub utxos : List (Utxo ℕ ScriptClass)
utxos =
    record { outpoint = 1; amount = 170000; script_public_key = pub_key }
    ∷ record { outpoint = 2; amount = 160000; script_public_key = pub_key_ecdsa }
    ∷ record { outpoint = 3; amount = 7; script_public_key = pub_key }
    ∷ []

-- A network whose mempool holds the payload of a member that joined.
abbrev rpc : KaspaRpc
rpc = record {
  NetworkId = ℕ;
  network_id = λ network. 0;
  with_suffix = λ network suffix. suffix;
  Client = ℕ;
  new = λ url has_resolver network. some network;
  connect = λ client. true;
  node = λ client. record {
    Tx = List ℕ;
    payload = λ tx. tx;
    id = λ tx. none;
    get_mempool_entry = λ want. some raw_changed;
    get_block = λ h. none;
    get_blocks = λ call low_hash. none;
  };
}

abbrev pub node : Kaspa
node = record {
  addresses = record {
    Address = ℕ;
    try_into = λ s. some 9;
    version = λ a. 0;
    payload = λ a. a ∷ [];
    version_pub_key = 0;
    new = λ prefix version body. 9;
    to_string = λ a. [];
  };
  rpc = rpc;
  Script = ScriptClass;
  Outpoint = ℕ;
  SecretKey = List ℕ;
  tx_version = 0;
  subnetwork_id_native = repeat 20 0;
  sig_hash_all = 1;
  from_slice = λ b. some b;
  get_utxos_by_addresses = λ client a. some utxos;
  pay_to_address_script = λ a. pub_key;
  from_script = λ s. s;
  schnorr_signature_hash = λ tx entries i. i ∷ tx.payload;
  ecdsa_signature_hash = λ tx entries i. i ∷ tx.payload;
  sign_schnorr = λ key m. repeat 64 (length m);
  sign_ecdsa = λ key m. repeat 64 (length key);
  normalized_mass = λ network tx entries. some 2000;
  submit_transaction = λ client tx. some (repeat 32 7);
  to_string = λ tid. to_hex tid;
}

abbrev pub key_hex : List ℕ
key_hex = repeat 64 97

size : length raw_message ≡ 131
unfolding write event_value event_fields pushed v0_slots v1_slots v1_1_slots role_slots as_u8 head
    arg_code arg_bytes to_be_bytes to_le_bytes
size = refl

abbrev picked : Selection (Entry node)
picked = record {
  picked =
      record { outpoint = 1; amount = 170000; script_public_key = pub_key }
      ∷ record { outpoint = 2; amount = 160000; script_public_key = pub_key_ecdsa }
      ∷ [];
  total_in = 330000;
  fee = 288400;
  output_value = 41600;
}

picked_lem : pick_utxos (amount_of node) utxos 131 0 ≡ ok picked
unfolding pick_utxos pick_from sort_by_amount insert required_fee predicted_compute_mass
    compute_mass
picked_lem = refl

abbrev paying : Tx node
paying = record {
  version = 0;
  inputs =
      record {
        previous_outpoint = 1;
        signature_script = 65 ∷ (repeat 64 132 ++ (1 ∷ []));
        sequence = 0;
        sig_op_count = 1;
      }
      ∷ record {
        previous_outpoint = 2;
        signature_script = 65 ∷ (repeat 64 32 ++ (1 ∷ []));
        sequence = 0;
        sig_op_count = 1;
      }
      ∷ [];
  outputs = record { value = 41600; script_public_key = pub_key } ∷ [];
  lock_time = 0;
  subnetwork_id = repeat 20 0;
  gas = 0;
  payload = raw_message;
  mass = 2000;
}

signed_lem :
    sign_inputs node
      (repeat 32 170)
      picked.picked
      (length (unsigned_transaction node 9 picked raw_message).inputs)
      0
      (unsigned_transaction node 9 picked raw_message)
    ≡ ok (record paying { mass = 0 })
unfolding sign_inputs signature_script set_script unsigned_transaction write event_value
    event_fields pushed v0_slots v1_slots v1_1_slots role_slots as_u8 head arg_code arg_bytes
    to_be_bytes to_le_bytes
signed_lem = refl

pub key_lem : parse_hex_bytes hexer key_hex ≡ ok (repeat 32 170)
unfolding parse_hex_bytes bare strip_0x trim skip_space space_front space_back of_hex value
key_lem = refl

paying_lem :
    build_transaction node hexer codec 0 NetworkType.mainnet message 9 key_hex 0 ≡ ok paying
unfolding build_transaction
paying_lem = rw (encoded_message, key_lem, size, picked_lem, signed_lem) refl

size-repeat : (n b : ℕ) → length (repeat n b) ≡ n
size-repeat zero b = refl
size-repeat (suc n) b = ap suc (size-repeat n b)

entries-Fits :
    (entries : List (Entry node)) (payload : List ℕ)
    → node.get_utxos_by_addresses 0 9 ≡ some entries
    → encode_komms_payload codec message ≡ ok payload
    → Fits (amount_of node) (length payload) 0 entries
unfolding exact_fee
entries-Fits entries payload e c =
    let same : utxos ≡ entries = cc e in
    let raw : raw_message ≡ payload = ok-injective raw_message payload (sym encoded_message ∙ c) in
    rw (← same, ← raw, size) (record { sum_fits = omega arith; fee_fits = omega arith })

build_transaction_sound_example : IsPayment node hexer codec 0 message 9 key_hex 0 paying
build_transaction_sound_example =
    build_transaction_sound node hexer codec 0 NetworkType.mainnet message 9 key_hex 0
      (λ k m. size-repeat 64 (length m)) (λ k m. size-repeat 64 (length k)) (λ tx entries i. refl)
      (λ tx entries i. refl) entries-Fits paying paying_lem
