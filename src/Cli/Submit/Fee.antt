-- ===== src/Cli/Submit/Fee.antt =====
-- src/submit.rs: `predicted_compute_mass` and `required_fee`.
use komms_cli.Base.{ℕ, ◌+◌, ◌*◌, ◌%◌, ◌^◌, ◌≡◌, ◌≤◌, ◌<◌, arith}

abbrev pub u64_mod : ℕ
u64_mod = 2 ^ 64

abbrev pub min_relay_fee_per_gram : ℕ
min_relay_fee_per_gram = 100

-- Before the wrap-around of u64.
unfoldable pub compute_mass : ℕ → ℕ → ℕ → ℕ
compute_mass num_utxos num_outs payload_len =
    let serialized_size = 94 + 118 * num_utxos + 53 * num_outs + payload_len in
    let compute_for_size = serialized_size * 1 in
    let output_spk_mass = (2 + 35) * 10 * num_outs in
    let script_mass = 1000 * num_utxos in compute_for_size + output_spk_mass + script_mass

unfoldable pub predicted_compute_mass : ℕ → ℕ → ℕ → ℕ
unfolding compute_mass
predicted_compute_mass num_utxos num_outs payload_len =
    compute_mass num_utxos num_outs payload_len % u64_mod

unfoldable pub required_fee : ℕ → ℕ → ℕ → ℕ → ℕ
unfolding predicted_compute_mass
required_fee num_utxos num_outs payload_len priority_fee =
    (min_relay_fee_per_gram * predicted_compute_mass num_utxos num_outs payload_len + priority_fee)
    % u64_mod

-- The fee as a number: the relay fee for the mass, and the priority fee on top.
unfoldable pub exact_fee : ℕ → ℕ → ℕ → ℕ → ℕ
unfolding compute_mass
exact_fee num_utxos num_outs payload_len priority_fee =
    min_relay_fee_per_gram * compute_mass num_utxos num_outs payload_len + priority_fee

pub required_fee-eq-exact_fee :
    (n outs len prio : ℕ)
    → exact_fee n outs len prio < u64_mod
    → required_fee n outs len prio ≡ exact_fee n outs len prio
unfolding required_fee exact_fee
required_fee-eq-exact_fee n outs len prio h = omega arith

pub exact_fee-le :
    (n m outs len prio : ℕ) → n ≤ m → exact_fee n outs len prio ≤ exact_fee m outs len prio
unfolding exact_fee
exact_fee-le n m outs len prio h = omega arith
