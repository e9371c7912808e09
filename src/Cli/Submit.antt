-- ===== src/Cli/Submit.antt =====
-- src/submit.rs: the fee, the choice of UTXOs, and the transaction that is submitted.
-- An `Entry` is an `RpcUtxosByAddressesEntry`, of which the code reads `utxo_entry.amount`. A u64 wraps.
pub mod Fee
pub mod Pick
pub mod Sorted
pub mod Laws
pub mod Transaction
pub mod Scripts
pub mod Signed
pub mod Payment
