-- ===== src/Examples/Broadcast.antt =====
-- `post --submit` of a member's join, with the toys of the other examples.
use komms_cli.Base.{
  ℕ, ◌≡◌, refl, List, [], ◌∷◌, Option, none, some, ok, true, length, ascii, to_be_bytes,
  to_le_bytes,
}
use komms_cli.Protocol.EventType.{as_u8}
use komms_cli.Protocol.Encode.{
  encode_komms_payload, event_value, event_fields, pushed, v0_slots, v1_slots, v1_1_slots,
  role_slots,
}
use komms_cli.Canonical.Grammar.{head, arg_code, arg_bytes}
use komms_cli.Protocol.Ids.{participant_id, sha256_domain, concat}
use komms_cli.Cli.Post.Patch.{
  member_address, creator_address_body_from_addr, patch_member_join_leave_pid, post,
}
use komms_cli.Cli.Post.Laws.{post_writes, post_encodes}
use komms_cli.Cli.Submit.Fee.{required_fee, predicted_compute_mass, compute_mass}
use komms_cli.Cli.Submit.Pick.{Selection, insert, sort_by_amount, pick_from, pick_utxos}
use komms_cli.Cli.Submit.Transaction.{
  pub_key, pub_key_ecdsa, Entry, set_script, signature_script, sign_inputs, unsigned_transaction,
  build_transaction, submit_komms_payload, amount_of,
}
use komms_cli.Cli.Client.{connected, make_client, connect_rpc, network_id_for_cli}
use komms_cli.Cli.Broadcast.{IsBroadcast, post_submit, post_submit_sound}
use komms_cli.Examples.Cbor.{codec, write}
use komms_cli.Examples.Hex.{hexer}
use komms_cli.Examples.Payload.{repeat}
use komms_cli.Examples.Post.{sha256, join, joined, changed, raw_changed, built_lem, ref_lem}
use komms_cli.Examples.Submit.{node, utxos, key_hex, key_lem}

abbrev pub change : Option (List ℕ)
change = some (ascii "kaspa:c")

patched_lem : patch_member_join_leave_pid node.addresses sha256 joined join true change ≡ ok changed
unfolding patch_member_join_leave_pid member_address creator_address_body_from_addr participant_id
    sha256_domain concat
patched_lem = refl

pub posted : post node.addresses sha256 hexer codec join true change ≡ ok (changed, raw_changed)
posted =
    post_writes node.addresses sha256 codec hexer join true change joined changed built_lem
      patched_lem ref_lem refl

encoded : encode_komms_payload codec changed ≡ ok raw_changed
encoded = post_encodes node.addresses sha256 codec hexer join true change changed raw_changed posted

size : length raw_changed ≡ 89
unfolding write event_value event_fields pushed v0_slots v1_slots v1_1_slots role_slots as_u8 head
    arg_code arg_bytes to_be_bytes to_le_bytes
size = refl

abbrev picked : Selection (Entry node)
picked = record {
  picked =
      record { outpoint = 1; amount = 170000; script_public_key = pub_key }
      ∷ record { outpoint = 2; amount = 160000; script_public_key = pub_key_ecdsa }
      ∷ [];
  total_in = 330000;
  fee = 284200;
  output_value = 45800;
}

picked_lem : pick_utxos (amount_of node) utxos 89 0 ≡ ok picked
unfolding pick_utxos pick_from sort_by_amount insert required_fee predicted_compute_mass
    compute_mass
picked_lem = refl

pub broadcast :
    post_submit node sha256 hexer codec join none none change (some key_hex) 0
    ≡ ok (repeat 32 7, raw_changed)
unfolding post_submit connected make_client connect_rpc network_id_for_cli submit_komms_payload
    build_transaction sign_inputs signature_script set_script unsigned_transaction
broadcast = rw (posted, encoded, key_lem, size, picked_lem) refl

post_submit_sound_example :
    IsBroadcast node sha256 hexer codec join none none change 0 (repeat 32 7) raw_changed
post_submit_sound_example =
    post_submit_sound node sha256 hexer codec join none none change (some key_hex) 0 (repeat 32 7)
      raw_changed broadcast
