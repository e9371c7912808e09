-- ===== src/Protocol/RoundTrip/WellTyped.antt =====
-- protocol/src/lib.rs: what the Rust types of `ParsedKommsEvent` say of its fields.
use komms_cli.Base.{
  ℕ, Option, none, some, ◌≡◌, ◌<◌, if◌then◌else◌, ◌==◌, length, Bool-cases, inl, inr, IsU64, arith,
}
use komms_cli.Protocol.EventType.{as_u8}
use komms_cli.Protocol.Event.{ParsedKommsEvent}

-- A field whose value, if any, satisfies `P`.
abbrev pub Holds {κ} : {A : Type 0} → (A → Type κ) → Option A → Type κ
Holds P none = Unit {κ}
Holds P (some a) = P a

-- What the Rust types of the fields say of their values.
pub record IsWellTyped {Value : Type 0} (ev : ParsedKommsEvent Value) : Type 0 where
  pub v_u64 : IsU64 ev.v
  pub t_u8 : as_u8 ev.t < 256
  pub sid_len : Holds (λ b. length b ≡ 32) ev.sid
  pub cid_len : Holds (λ b. length b ≡ 32) ev.cid
  pub did_len : Holds (λ b. length b ≡ 32) ev.did
  pub pid_len : Holds (λ b. length b ≡ 32) ev.pid
  pub mid_len : Holds (λ b. length b ≡ 32) ev.mid
  pub ts_u64 : Holds (λ x. IsU64 x) ev.ts
  pub n_u64 : Holds (λ x. IsU64 x) ev.n
  pub sig_len : Holds (λ b. length b ≡ 64) ev.sig
  pub parent_mid_len : Holds (λ b. length b ≡ 32) ev.parent_mid
  pub enc_scheme_u64 : Holds (λ x. IsU64 x) ev.enc_scheme
  pub kind_u64 : Holds (λ x. IsU64 x) ev.kind
  pub ref_type_u64 : Holds (λ x. IsU64 x) ev.ref_type
  pub device_pk_len : Holds (λ b. length b ≡ 32) ev.device_pk
  pub sig_scheme_u64 : Holds (λ x. IsU64 x) ev.sig_scheme
  pub member_tag_len : Holds (λ b. length b ≡ 16) ev.member_tag
  pub match_tag_len : Holds (λ b. length b ≡ 16) ev.match_tag
  pub key_epoch_u64 : Holds (λ x. IsU64 x) ev.key_epoch
  pub role_u8 : Holds (λ x. x < 256) ev.role

-- What the encoder writes at key 13.
abbrev pub written_scheme : {Value : Type 0} → ParsedKommsEvent Value → Option ℕ
written_scheme ev = if ev.v == 0 then none else ev.enc_scheme

pub written_scheme-Holds :
    {Value : Type 0} (ev : ParsedKommsEvent Value)
    → IsWellTyped ev
    → Holds (λ x. IsU64 x) (written_scheme ev)
written_scheme-Holds ev w = elim (Bool-cases (ev.v == 0)) [
  | inl h ↦ rw h tt
  | inr h ↦ rw h w.enc_scheme_u64
]

pub role_lem : (r : Option ℕ) → Holds (λ x. x < 256) r → Holds (λ x. IsU64 x) r
role_lem none h = tt
role_lem (some x) h = omega arith
