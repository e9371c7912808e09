-- ===== src/Cli/Id/Laws.antt =====
-- src/lib.rs: what `id new-wallet` prints, for the commands that read it.
use komms_cli.Base.{
  ℕ, List, [], ◌∷◌, ◌++◌, append-nil, Bool, true, Option, none, some, ok, ◌≡◌, refl, ap, ◌∙◌, arith,
  ascii,
}
use komms_cli.Hex.{FasterHex}
use komms_cli.Protocol.Ciborium.{Ciborium}
use komms_cli.Protocol.Event.{ParsedKommsEvent}
use komms_cli.Protocol.Ids.{participant_id, sha256_domain, concat}
use komms_cli.Cli.Addresses.{Prefix, KaspaAddresses}
use komms_cli.Cli.Network.{NetworkArg, prefix}
use komms_cli.Cli.Output.{SerdeJson}
use komms_cli.Cli.Post.Commands.{Text, PostCmd, OptMeta}
use komms_cli.Cli.Post.Patch.{
  creator_address_body_from_addr, member_address, patch_member_join_leave_pid, post,
}
use komms_cli.Cli.Post.Laws.{post_inv}
use komms_cli.Cli.Id.{IdCmd, Secp256k1, id_json}

-- The address prefix of each network of the command line.
pub data PrefixOf : NetworkArg → Prefix → Type 0 where
  mainnet : PrefixOf NetworkArg.mainnet Prefix.mainnet
  testnet : PrefixOf NetworkArg.testnet Prefix.testnet
  devnet : PrefixOf NetworkArg.devnet Prefix.devnet
  simnet : PrefixOf NetworkArg.simnet Prefix.simnet

-- A `member-join` or `member-leave` for the member of an address: its own argument or, with `--submit` and
-- without that argument, the change address.
pub data ForMember (address : Text) : PostCmd → Bool → Option Text → Type 0 where
  join :
      (sid : Text) (ref_hex : Option Text) (meta : OptMeta) (submit : Bool)
      (change_address : Option Text)
      → ForMember address
          (PostCmd.member_join sid (some address) ref_hex meta)
          submit
          change_address
  leave :
      (sid : Text) (ref_hex : Option Text) (meta : OptMeta) (submit : Bool)
      (change_address : Option Text)
      → ForMember address
          (PostCmd.member_leave sid (some address) ref_hex meta)
          submit
          change_address
  join_submit :
      (sid : Text) (ref_hex : Option Text) (meta : OptMeta)
      → ForMember address (PostCmd.member_join sid none ref_hex meta) true (some address)
  leave_submit :
      (sid : Text) (ref_hex : Option Text) (meta : OptMeta)
      → ForMember address (PostCmd.member_leave sid none ref_hex meta) true (some address)

prefix-PrefixOf : {network : NetworkArg} {p : Prefix} → PrefixOf network p → prefix network ≡ p
unfolding prefix
prefix-PrefixOf mainnet = refl
prefix-PrefixOf testnet = refl
prefix-PrefixOf devnet = refl
prefix-PrefixOf simnet = refl

participant_id_lem :
    (sha256 : List ℕ → List ℕ) (body : List ℕ)
    → participant_id sha256 body ≡ sha256 (ascii "KOMMS_PARTICIPANT_V0" ++ body)
unfolding participant_id sha256_domain concat
participant_id_lem sha256 body =
    ap (λ b. sha256 (ascii "KOMMS_PARTICIPANT_V0" ++ b)) (append-nil body)

module _ (K : KaspaAddresses) (sha256 : List ℕ → List ℕ) where
  patch-ForMember :
      {Value : Type 0} (built ev : ParsedKommsEvent Value) (address : Text) (addr : K.Address)
      {cmd : PostCmd} {submit : Bool} {change_address : Option Text}
      → K.try_into address ≡ some addr
      → ForMember address cmd submit change_address
      → patch_member_join_leave_pid K sha256 built cmd submit change_address ≡ ok ev
      → ev.pid ≡ some (participant_id sha256 (creator_address_body_from_addr K sha256 addr))
  unfolding patch_member_join_leave_pid member_address
  patch-ForMember built ev address addr r (join sid ref_hex meta submit change_address) e =
      ground (arith, r, e)
  patch-ForMember built ev address addr r (leave sid ref_hex meta submit change_address) e =
      ground (arith, r, e)
  patch-ForMember built ev address addr r (join_submit sid ref_hex meta) e = ground (arith, r, e)
  patch-ForMember built ev address addr r (leave_submit sid ref_hex meta) e = ground (arith, r, e)

module _ (S : SerdeJson) (H : FasterHex) (C : Ciborium) (K : KaspaAddresses) (P : Secp256k1)
    (sha256 : List ℕ → List ℕ) where
  open S use {Json, number, string, object}

  -- The participant of a wallet's public key.
  abbrev pub wallet_participant : List ℕ
  wallet_participant = sha256 (ascii "KOMMS_PARTICIPANT_V0" ++ (0 ∷ P.x_only_public_key P.drawn))

  -- The member whose event `post member-join` or `post member-leave` writes for the address of a new wallet is
  -- the one that `id new-wallet` and, for that address, `id creator-bytes` print: the hash of the domain
  -- `KOMMS_PARTICIPANT_V0`, a zero byte and the public key, the address being that of the key on the network
  -- that was named. An address that is printed is read back, it has the version and the payload it is made of,
  -- and the version of a public key is 0.
  pub new_wallet-post :
      (network : NetworkArg) (p : Prefix) (address : Text) (cmd : PostCmd) (submit : Bool)
      (change_address : Option Text) (ev : ParsedKommsEvent C.Value) (raw : List ℕ)
      → ((a : K.Address) → K.try_into (K.to_string a) ≡ some a)
      → ((p : Prefix) (v : ℕ) (body : List ℕ) → K.version (K.new p v body) ≡ v)
      → ((p : Prefix) (v : ℕ) (body : List ℕ) → K.payload (K.new p v body) ≡ body)
      → K.version_pub_key ≡ 0
      → PrefixOf network p
      → address ≡ K.to_string (K.new p 0 (P.x_only_public_key P.drawn))
      → ForMember address cmd submit change_address
      → post K sha256 H C cmd submit change_address ≡ ok (ev, raw)
      → (ev.pid ≡ some wallet_participant)
        × (id_json S H K P sha256 (IdCmd.new_wallet network)
            ≡ ok (
                object (
                  ("private_key_hex", string (H.hex_string (P.secret_bytes P.drawn)))
                  ∷ ("xonly_pubkey_hex", string (H.hex_string (P.x_only_public_key P.drawn)))
                  ∷ ("kaspa_address", string address)
                  ∷ ("address_version", number 0)
                  ∷ ("creator_address_hex", string (H.hex_string (0 ∷ P.x_only_public_key P.drawn)))
                  ∷ ("participant_id_hex", string (H.hex_string wallet_participant))
                  ∷ [])))
        × (id_json S H K P sha256 (IdCmd.creator_bytes address)
            ≡ ok (
                object (
                  ("kaspa_address", string address)
                  ∷ ("address_version", number 0)
                  ∷ ("creator_address_hex", string (H.hex_string (0 ∷ P.x_only_public_key P.drawn)))
                  ∷ ("participant_id_hex", string (H.hex_string wallet_participant))
                  ∷ [])))
  unfolding id_json creator_address_body_from_addr
  new_wallet-post network p address cmd submit change_address ev raw reads version payload
        zero_version net made member e =
      let xonly = P.x_only_public_key P.drawn in
      let addr = K.new p 0 xonly in
      let (built, b, patched, w) = post_inv K sha256 C H cmd submit change_address ev raw e in
      let is_read : K.try_into address ≡ some addr = ap K.try_into made ∙ reads addr in
      let pid = patch-ForMember K sha256 built ev address addr is_read member patched in
      let participant = participant_id_lem sha256 (0 ∷ xonly) in
      let body : creator_address_body_from_addr K sha256 addr ≡ 0 ∷ xonly =
        rw (version p 0 xonly, payload p 0 xonly) refl in
      let prefixed = prefix-PrefixOf net in
      (
        pid ∙ ap (λ x. some (participant_id sha256 x)) body ∙ ap some participant,
        rw (prefixed, zero_version, version p 0 xonly, payload p 0 xonly, participant, made) refl,
        rw (is_read, version p 0 xonly, payload p 0 xonly, participant) refl,
      )
