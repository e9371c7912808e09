-- ===== src/Cli/Commands.antt =====
-- src/lib.rs: `Commands` and `ReadCmd`, the arguments of the commands.
use komms_cli.Base.{ℕ, Bool, Option}
use komms_cli.Cli.Network.{NetworkArg}
use komms_cli.Cli.Id.{IdCmd}
use komms_cli.Cli.Post.Commands.{Text, PostCmd}

pub record TxArgs : Type 0 where
  pub txid : Text
  pub rpc_url : Option Text
  pub network : NetworkArg
  pub block_hash : Option Text
  pub strict : Bool
  pub pretty_cbor : Bool
  pub verify_sig : Bool
  pub ed25519_pubkey_hex : Option Text

pub record IndexArgs : Type 0 where
  pub data_dir : Text
  pub event_type : Option ℕ
  pub sid_hex : Option Text
  pub cid_hex : Option Text
  pub daa_min : Option ℕ
  pub daa_max : Option ℕ

pub data ReadCmd : Type 0 where
  tx : TxArgs → ReadCmd
  index : IndexArgs → ReadCmd

pub record DecodeArgs : Type 0 where
  pub input : Option Text
  pub strict : Bool
  pub pretty : Bool
  pub pretty_cbor : Bool
  pub verify_sig : Bool
  pub ed25519_pubkey_hex : Option Text

pub record PostArgs : Type 0 where
  pub cmd : PostCmd
  pub pretty : Bool
  pub submit : Bool
  pub rpc_url : Option Text
  pub network : Option NetworkArg
  pub change_address : Option Text
  pub private_key_hex : Option Text
  pub priority_fee : ℕ

-- The last argument of a command of one line is `pretty`.
pub data Commands : Type 0 where
  decode : DecodeArgs → Commands
  ref_inspect : Text → Bool → Commands
  id : IdCmd → Bool → Commands
  read : ReadCmd → Bool → Commands
  post : PostArgs → Commands
  -- file, ref_hex
  verify_content : Text → Text → Bool → Commands
