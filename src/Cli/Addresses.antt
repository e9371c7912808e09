-- ===== src/Cli/Addresses.antt =====
-- The `kaspa_addresses` crate as src/ uses it: reading an address, its version byte and its payload, and the
-- address of a key.
use komms_cli.Base.{ℕ, List, Option}

pub data Prefix : Type 0 where
  mainnet testnet devnet simnet : Prefix

pub record KaspaAddresses : Type 1 where
  pub Address : Type 0
  pub try_into : List ℕ → Option Address
  pub version : Address → ℕ
  pub payload : Address → List ℕ
  -- `Version::PubKey`
  pub version_pub_key : ℕ
  -- `Address::new`
  pub new : Prefix → ℕ → List ℕ → Address
  pub to_string : Address → List ℕ
