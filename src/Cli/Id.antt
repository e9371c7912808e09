-- ===== src/Cli/Id.antt =====
-- src/lib.rs: the commands `id`, `ref-inspect` and `verify-content`, up to printing.
pub mod Laws
use komms_cli.Base.{
  ℕ, suc, List, [], ◌∷◌, Bool, true, false, ◌&&◌, Result, ok, ◌>>=◌, map_err, ok_or, ◌==◌, length,
  bytes_eq, bytes_eq_refl, bytes_eq_sound, ◌≡◌, ◌↔◌, arith,
}
use komms_cli.Hex.{FasterHex}
use komms_cli.Protocol.Ids.{
  message_id, server_id, channel_id, dm_thread_id, participant_id, ref_from_content_hash,
}
use komms_cli.Protocol.EventType.{EventType}
use komms_cli.Cli.Hexutil.{HexError, parse_hex32, parse_hex_bytes}
use komms_cli.Cli.Output.{SerdeJson, ref_json}
use komms_cli.Cli.Network.{NetworkArg, prefix}
use komms_cli.Cli.Addresses.{KaspaAddresses}
use komms_cli.Cli.Post.Patch.{creator_address_body_from_addr}

pub data IdCmd : Type 0 where
  -- txid, event_index
  message : List ℕ → ℕ → IdCmd
  -- creation_txid
  server : List ℕ → IdCmd
  -- sid_hex, creator_address_hex, creation_txid
  channel : List ℕ → List ℕ → List ℕ → IdCmd
  -- addr_a_hex, addr_b_hex
  dm : List ℕ → List ℕ → IdCmd
  -- address
  creator_bytes : List ℕ → IdCmd
  -- network
  new_wallet : NetworkArg → IdCmd

-- The `secp256k1` crate: the keys, and what `generate_keypair` draws from the random numbers of the system.
pub record Secp256k1 : Type 1 where
  pub SecretKey : Type 0
  pub secret_bytes : SecretKey → List ℕ
  pub x_only_public_key : SecretKey → List ℕ
  pub drawn : SecretKey

pub data IdError : Type 0 where
  hex : HexError → IdError
  bad_address : IdError

module _ (S : SerdeJson) (H : FasterHex) (K : KaspaAddresses) (P : Secp256k1)
    (sha256 : List ℕ → List ℕ) where
  open S use {Json, number, boolean, string, object}
  open H use {hex_string}

  unfoldable pub id_json : IdCmd → Result IdError Json
  id_json (message txid event_index) = do
    t ← map_err hex (parse_hex32 H txid)
    ok (object (("message_id", string (hex_string (message_id t))) ∷ []))
  id_json (server creation_txid) = do
    tx ← map_err hex (parse_hex32 H creation_txid)
    ok (object (("server_id", string (hex_string (server_id tx))) ∷ []))
  id_json (channel sid_hex creator_address_hex creation_txid) = do
    tx ← map_err hex (parse_hex32 H creation_txid)
    ok (object (("channel_id", string (hex_string (channel_id tx))) ∷ []))
  id_json (dm addr_a_hex addr_b_hex) = do
    a ← map_err hex (parse_hex_bytes H addr_a_hex)
    b ← map_err hex (parse_hex_bytes H addr_b_hex)
    ok (object (("dm_thread_id", string (hex_string (dm_thread_id sha256 a b))) ∷ []))
  id_json (creator_bytes address) = do
    addr ← ok_or (K.try_into address) bad_address
    let body = creator_address_body_from_addr K sha256 addr
    ok (
        object (
          ("kaspa_address", string address)
          ∷ ("address_version", number (K.version addr))
          ∷ ("creator_address_hex", string (hex_string body))
          ∷ ("participant_id_hex", string (hex_string (participant_id sha256 body)))
          ∷ []))
  id_json (new_wallet network) =
      let addr = K.new (prefix network) K.version_pub_key (P.x_only_public_key P.drawn) in
      let body = creator_address_body_from_addr K sha256 addr in
      ok (
        object (
          ("private_key_hex", string (hex_string (P.secret_bytes P.drawn)))
          ∷ ("xonly_pubkey_hex", string (hex_string (P.x_only_public_key P.drawn)))
          ∷ ("kaspa_address", string (K.to_string addr))
          ∷ ("address_version", number (K.version addr))
          ∷ ("creator_address_hex", string (hex_string body))
          ∷ ("participant_id_hex", string (hex_string (participant_id sha256 body)))
          ∷ []))

module _ (S : SerdeJson) (H : FasterHex) where
  open S use {Json}

  unfoldable pub ref_inspect : (EventType → List ℕ) → List ℕ → Result IdError Json
  ref_inspect debug_t hex_arg = do
    b ← map_err hex (parse_hex_bytes H hex_arg)
    ok (ref_json S H debug_t b)

-- `r.first() == Some(&0x02) && r.len() == 33 && r[1..] == digest`
unfoldable pub matches_ref : List ℕ → List ℕ → Bool
matches_ref digest [] = false
matches_ref digest (kind ∷ body) =
    (kind == 0x02) && ((suc (length body) == 33) && bytes_eq body digest)

module _ (S : SerdeJson) (H : FasterHex) (sha256 : List ℕ → List ℕ) where
  open S use {Json, boolean, string, object}

  -- `data` is what the file holds.
  unfoldable pub verify_content : List ℕ → List ℕ → Result IdError Json
  verify_content data_bytes ref_hex = do
    let digest = sha256 data_bytes
    r ← map_err hex (parse_hex_bytes H ref_hex)
    ok (
        object (
          ("file_sha256", string (H.hex_string digest))
          ∷ ("ref_hex", string ref_hex)
          ∷ ("matches_ref_content_hash", boolean (matches_ref digest r))
          ∷ []))

-- `verify-content` reports a match exactly when the `ref` is the one that `ref_from_content_hash` builds from
-- the digest of the file, which is 32 bytes.
pub matches_ref_iff :
    (digest r : List ℕ)
    → length digest ≡ 32
    → (matches_ref digest r ≡ true) ↔ (r ≡ ref_from_content_hash digest)
unfolding matches_ref ref_from_content_hash
matches_ref_iff digest [] h = (λ e. cc, λ e. cc)
matches_ref_iff digest (kind ∷ body) h = (
  λ e.
      let same : body ≡ digest = bytes_eq_sound body digest (ground arith) in
      let two : kind ≡ 2 = ground arith in cc (same, two),
  λ e.
      let same : digest ≡ body = cc e in
      let two : kind ≡ 2 = cc e in
      let refl_body = bytes_eq_refl body in rw same (ground (arith, refl_body, h, same, two)),
)
