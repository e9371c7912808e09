-- ===== src/Cli/Network.antt =====
-- src/lib.rs: the networks of the command line.
use komms_cli.Cli.Addresses.{Prefix}
use komms_cli.Cli.Client.{NetworkType}

pub data NetworkArg : Type 0 where
  mainnet testnet devnet simnet : NetworkArg

unfoldable pub into : NetworkArg → NetworkType
into NetworkArg.mainnet = NetworkType.mainnet
into NetworkArg.testnet = NetworkType.testnet
into NetworkArg.devnet = NetworkType.devnet
into NetworkArg.simnet = NetworkType.simnet

-- The prefix of an address that `id new-wallet` makes.
unfoldable pub prefix : NetworkArg → Prefix
prefix NetworkArg.mainnet = Prefix.mainnet
prefix NetworkArg.testnet = Prefix.testnet
prefix NetworkArg.devnet = Prefix.devnet
prefix NetworkArg.simnet = Prefix.simnet
