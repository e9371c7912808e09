-- ===== src/Examples/Wallet.antt =====
-- A wallet that joins a server.
use komms_cli.Base.{
  ℕ, List, [], ◌∷◌, true, none, some, ok, ◌≡◌, refl, trim, skip_space, space_front, space_back,
}
use komms_cli.Protocol.Event.{ParsedKommsEvent}
use komms_cli.Protocol.Encode.{event_value}
use komms_cli.Protocol.Ids.{participant_id, sha256_domain, concat}
use komms_cli.Cli.Addresses.{Prefix, KaspaAddresses}
use komms_cli.Cli.Network.{NetworkArg}
use komms_cli.Cli.Hexutil.{parse_hex32, bare, strip_0x}
use komms_cli.Cli.Id.{IdCmd, id_json}
use komms_cli.Cli.Id.Laws.{testnet, join_submit, new_wallet-post}
use komms_cli.Cli.Post.Commands.{PostCmd}
use komms_cli.Cli.Post.Args.{each_opt, z, meta_sig}
use komms_cli.Cli.Post.Build.{build_member, build_post_ev}
use komms_cli.Cli.Post.Patch.{
  member_address, creator_address_body_from_addr, patch_member_join_leave_pid,
}
use komms_cli.Cli.Post.Laws.{post_writes}
use komms_cli.Examples.Cbor.{codec, write, CborValue}
use komms_cli.Examples.Hex.{hexer, of_hex, value}
use komms_cli.Examples.Json.{json, string}
use komms_cli.Examples.Payload.{repeat}
use komms_cli.Examples.Post.{sha256, joined, ref_lem}
use komms_cli.Examples.Run.{keys}

-- An address is its version and its payload.
abbrev first : List ℕ → ℕ
first [] = 0
first (b ∷ bytes) = b

abbrev others : List ℕ → List ℕ
others [] = []
others (b ∷ bytes) = bytes

abbrev versioned : KaspaAddresses
versioned = record {
  Address = List ℕ;
  try_into = λ s. some s;
  version = λ a. first a;
  payload = λ a. others a;
  version_pub_key = 0;
  new = λ p v body. v ∷ body;
  to_string = λ a. a;
}

-- `post member-join --submit` for the address of the wallet, which is the change address.
abbrev wallet : List ℕ
wallet = 0 ∷ repeat 32 8

abbrev joining_wallet : PostCmd
joining_wallet =
    PostCmd.member_join (repeat 64 97) none none
      (record { ts = some 1700000000; n = some 5; sig_hex = none })

abbrev wallet_event : ParsedKommsEvent CborValue
wallet_event = record joined { pid = some (repeat 32 53) }

wallet_built : build_post_ev hexer {Value = CborValue} joining_wallet ≡ ok joined
unfolding build_post_ev build_member z parse_hex32 bare strip_0x trim skip_space space_front
    space_back of_hex value each_opt meta_sig
wallet_built = refl

wallet_patched :
    patch_member_join_leave_pid versioned sha256 joined joining_wallet true (some wallet)
    ≡ ok wallet_event
unfolding patch_member_join_leave_pid member_address creator_address_body_from_addr participant_id
    sha256_domain concat
wallet_patched = refl

new_wallet-post_example :
    (wallet_event.pid ≡ some (repeat 32 53))
    × (id_json json hexer versioned keys sha256 (IdCmd.new_wallet NetworkArg.testnet)
        ≡ ok (
            json.object (
              ("private_key_hex", string (hexer.hex_string (repeat 32 7)))
              ∷ ("xonly_pubkey_hex", string (hexer.hex_string (repeat 32 8)))
              ∷ ("kaspa_address", string wallet)
              ∷ ("address_version", json.number 0)
              ∷ ("creator_address_hex", string (hexer.hex_string (0 ∷ repeat 32 8)))
              ∷ ("participant_id_hex", string (hexer.hex_string (repeat 32 53)))
              ∷ [])))
    × (id_json json hexer versioned keys sha256 (IdCmd.creator_bytes wallet)
        ≡ ok (
            json.object (
              ("kaspa_address", string wallet)
              ∷ ("address_version", json.number 0)
              ∷ ("creator_address_hex", string (hexer.hex_string (0 ∷ repeat 32 8)))
              ∷ ("participant_id_hex", string (hexer.hex_string (repeat 32 53)))
              ∷ [])))
new_wallet-post_example =
    new_wallet-post json hexer codec versioned keys sha256 NetworkArg.testnet Prefix.testnet wallet
      joining_wallet true (some wallet) wallet_event
      (0x4B ∷ 0x4F ∷ 0x4D ∷ 0x4D ∷ write (event_value codec wallet_event)) (λ a. refl)
      (λ p v body. refl) (λ p v body. refl) refl testnet refl
      (join_submit (repeat 64 97) none
        (record { ts = some 1700000000; n = some 5; sig_hex = none }))
      (post_writes versioned sha256 codec hexer joining_wallet true (some wallet) joined
        wallet_event wallet_built wallet_patched ref_lem refl)
