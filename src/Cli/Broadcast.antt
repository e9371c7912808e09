-- ===== src/Cli/Broadcast.antt =====
-- src/lib.rs: what the command `post` does with `--submit`, when it is built with the feature `submit`, up to
-- printing.
use komms_cli.Base.{
  ℕ, List, true, Option, none, some, Result, ok, ◌>>=◌, map_err, map_err-eq-ok, ok_or, ok_or-eq-ok,
  ◌≡◌, ap, sym, ◌∙◌, ok-injective, subst, >>=-eq-ok,
}
use komms_cli.Hex.{FasterHex}
use komms_cli.Protocol.Event.{ParsedKommsEvent, ValidationError}
use komms_cli.Protocol.Ciborium.{Ciborium}
use komms_cli.Protocol.Encode.{encode_komms_payload}
use komms_cli.Cli.Post.Commands.{Text, PostCmd}
use komms_cli.Cli.Post.Args.{CliError}
use komms_cli.Cli.Post.Patch.{post}
use komms_cli.Cli.Post.Laws.{post_encodes}
use komms_cli.Cli.Client.{NetworkType, ClientError, connected}
use komms_cli.Cli.Network.{NetworkArg, into}
use komms_cli.Cli.Submit.Transaction.{
  Kaspa, Tx, SubmitError, build_transaction, submit_komms_payload, submit_failed,
}
use komms_cli.Cli.Submit.Payment.{build_transaction_carries}

pub data PostError : Type 0 where
  building : CliError → PostError
  no_change_address bad_change_address no_private_key : PostError
  rpc : ClientError → PostError
  submitting : SubmitError → PostError
  encode : ValidationError → PostError

-- `network.map(|n| n.into()).unwrap_or(NetworkType::Mainnet)`
abbrev pub network_or_mainnet : Option NetworkArg → NetworkType
network_or_mainnet none = NetworkType.mainnet
network_or_mainnet (some n) = into n

module _ (K : Kaspa) (sha256 : List ℕ → List ℕ) (H : FasterHex) (C : Ciborium) where
  -- The id of the transaction, and the payload that is printed.
  unfoldable pub post_submit :
      PostCmd
      → Option Text
      → Option NetworkArg
      → Option Text
      → Option Text
      → ℕ
      → Result PostError (List ℕ × List ℕ)
  post_submit cmd rpc_url network change_address private_key_hex priority_fee = do
    (ev, raw) ← map_err building (post K.addresses sha256 H C cmd true change_address)
    text ← ok_or change_address no_change_address
    addr ← ok_or (K.addresses.try_into text) bad_change_address
    pk ← ok_or private_key_hex no_private_key
    client ← map_err rpc (connected K.rpc rpc_url (network_or_mainnet network))
    tid ←
        map_err submitting
          (submit_komms_payload K H C client (network_or_mainnet network) ev addr pk priority_fee)
    payload ← map_err encode (encode_komms_payload C ev)
    ok (tid, payload)

  -- What was submitted: the transaction built for the event, and the node's id for it.
  pub record IsBroadcast (cmd : PostCmd) (rpc_url : Option Text) (network : Option NetworkArg)
      (change_address : Option Text) (priority_fee : ℕ) (tid payload : List ℕ) : Type 0 where
    pub ev : ParsedKommsEvent C.Value
    pub client : K.rpc.Client
    pub addr : K.addresses.Address
    pub key_hex : List ℕ
    pub tx : Tx K
    pub posted : post K.addresses sha256 H C cmd true change_address ≡ ok (ev, payload)
    pub on_network : connected K.rpc rpc_url (network_or_mainnet network) ≡ ok client
    pub built :
        build_transaction K H C client (network_or_mainnet network) ev addr key_hex priority_fee
        ≡ ok tx
    pub submitted : K.submit_transaction client tx ≡ some tid
    pub carried : tx.payload ≡ payload

  broadcast :
      (cmd : PostCmd) (rpc_url : Option Text) (network : Option NetworkArg)
      (change_address : Option Text) (priority_fee : ℕ) (ev : ParsedKommsEvent C.Value)
      (client : K.rpc.Client) (addr : K.addresses.Address) (pk : List ℕ) (tx : Tx K)
      (raw printed tid : List ℕ) {tid' payload : List ℕ}
      → post K.addresses sha256 H C cmd true change_address ≡ ok (ev, raw)
      → encode_komms_payload C ev ≡ ok printed
      → connected K.rpc rpc_url (network_or_mainnet network) ≡ ok client
      → build_transaction K H C client (network_or_mainnet network) ev addr pk priority_fee ≡ ok tx
      → K.submit_transaction client tx ≡ some tid
      → ◌≡◌ {A = List ℕ × List ℕ} (tid, printed) (tid', payload)
      → IsBroadcast cmd rpc_url network change_address priority_fee tid' payload
  broadcast cmd rpc_url network change_address priority_fee ev client addr pk tx raw printed tid
        posted encoded on_network built submitted same =
      let as_posted : raw ≡ printed = ok-injective raw printed (
        sym (post_encodes K.addresses sha256 C H cmd true change_address ev raw posted)
        ∙ encoded) in
      let carried : tx.payload ≡ printed = ok-injective tx.payload printed (
        sym (
          build_transaction_carries K H C client (network_or_mainnet network) ev addr pk
            priority_fee tx built)
        ∙ encoded) in
      subst
        (λ (q : List ℕ × List ℕ).
          IsBroadcast cmd rpc_url network change_address priority_fee q.0 q.1)
        same
        (record {
          ev = ev;
          client = client;
          addr = addr;
          key_hex = pk;
          tx = tx;
          posted = posted ∙ ap (λ r. ok (ev, r)) as_posted;
          on_network = on_network;
          built = built;
          submitted = submitted;
          carried = carried;
        })

  -- When `post --submit` succeeds, the id is that of the client of the chosen network, connected, for the
  -- transaction that was built for the event of the command, and the payload that is printed is the one of the
  -- event and the one in that transaction.
  pub post_submit_sound :
      (cmd : PostCmd) (rpc_url : Option Text) (network : Option NetworkArg)
      (change_address private_key_hex : Option Text) (priority_fee : ℕ) (tid payload : List ℕ)
      → post_submit cmd rpc_url network change_address private_key_hex priority_fee
        ≡ ok (tid, payload)
      → IsBroadcast cmd rpc_url network change_address priority_fee tid payload
  unfolding post_submit submit_komms_payload
  post_submit_sound cmd rpc_url network change_address private_key_hex priority_fee tid payload e =
      let ((ev, raw), e₁, r₁) =
        >>=-eq-ok (map_err building (post K.addresses sha256 H C cmd true change_address)) _ e in
      let (text, e₂, r₂) = >>=-eq-ok (ok_or change_address no_change_address) _ r₁ in
      let (addr, e₃, r₃) = >>=-eq-ok (ok_or (K.addresses.try_into text) bad_change_address) _ r₂ in
      let (pk, e₄, r₄) = >>=-eq-ok (ok_or private_key_hex no_private_key) _ r₃ in
      let (client, c₄, s₄) =
        >>=-eq-ok (map_err rpc (connected K.rpc rpc_url (network_or_mainnet network))) _ r₄ in
      let (tid', e₅, r₅) =
        >>=-eq-ok
          (map_err submitting (
            submit_komms_payload K H C client (network_or_mainnet network) ev addr pk priority_fee))
          _ s₄ in
      let (printed, e₆, r₆) = >>=-eq-ok (map_err encode (encode_komms_payload C ev)) _ r₅ in
      let (tx, e₇, r₇) =
        >>=-eq-ok
          (build_transaction K H C client (network_or_mainnet network) ev addr pk priority_fee) _
          (map_err-eq-ok submitting _ tid' e₅) in
      broadcast cmd rpc_url network change_address priority_fee ev client addr pk tx raw printed
        tid' (map_err-eq-ok building _ (ev, raw) e₁) (map_err-eq-ok encode _ printed e₆)
        (map_err-eq-ok rpc _ client c₄) e₇
        (ok_or-eq-ok (K.submit_transaction client tx) submit_failed tid' r₇)
        (ok-injective (tid', printed) (tid, payload) r₆)
