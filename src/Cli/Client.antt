-- ===== src/Cli/Client.antt =====
-- src/lib.rs: `make_client`; src/read_rpc.rs: `connect_rpc` and `network_id_for_cli`.
use komms_cli.Base.{
  ℕ, List, Bool, true, false, not, Option, none, some, Result, ◌>>=◌, ◌>>◌, ok, ok_or, guard,
}
use komms_cli.Cli.ReadRpc.{Node}

-- The networks of the Kaspa crates.
pub data NetworkType : Type 0 where
  mainnet testnet devnet simnet : NetworkType

-- The RPC client of the Kaspa crates, with Borsh for its encoding: `new` takes the URL, whether there is the
-- default resolver, and the network; `connect` says whether it connects, and `node` is what then answers.
pub record KaspaRpc : Type 1 where
  pub NetworkId : Type 0
  pub network_id : NetworkType → NetworkId
  pub with_suffix : NetworkType → ℕ → NetworkId
  pub Client : Type 0
  pub new : Option (List ℕ) → Bool → NetworkId → Option Client
  pub connect : Client → Bool
  pub node : Client → Node

pub data ClientError : Type 0 where
  no_client connect_failed : ClientError

abbrev pub is_some : {A : Type 0} → Option A → Bool
is_some none = false
is_some (some a) = true

module _ (R : KaspaRpc) where
  unfoldable pub network_id_for_cli : NetworkType → R.NetworkId
  network_id_for_cli NetworkType.mainnet = R.network_id NetworkType.mainnet
  network_id_for_cli network = R.with_suffix network 10

  unfoldable pub make_client : Option (List ℕ) → NetworkType → Result ClientError R.Client
  make_client url network = do
    let nid = network_id_for_cli network
    ok_or (R.new url (not (is_some url)) nid) no_client

  unfoldable pub connect_rpc : R.Client → Result ClientError (Unit {0})
  connect_rpc client = guard (R.connect client) connect_failed

  -- Both commands that use a node make a client and connect it.
  unfoldable pub connected : Option (List ℕ) → NetworkType → Result ClientError R.Client
  connected url network = do client ← make_client url network; connect_rpc client; ok client
