-- ===== src/Protocol/Validate/Laws.antt =====
-- What an event that `validate_event` accepts satisfies.
use komms_cli.Base.{
  ℕ, List, Bool, true, false, not, ◌||◌, Option, none, some, ok, ◌≡◌, ◌≢◌, ◌≤◌, ◌⊎◌, >>=-eq-ok,
  >>-eq-ok, ok_or, guard, subst, refl, arith, ◌==◌, is_some, length,
}
use komms_cli.Protocol.EventType.{EventType}
use komms_cli.Protocol.Event.{ParsedKommsEvent, enc_scheme_mismatch, v1_missing_field}
use komms_cli.Protocol.Validate.Guards.{
  check_envelope, check_fields, check_v1_if, check_v1, check_scheme, check_sealed_sender,
  check_group, validate_role_byte, validate_target_bytes, agree,
}
use komms_cli.Protocol.Validate.ByType.{
  check_type, check_role_assign, check_sealed_join, check_sealed_leave, check_key_rotate,
  check_sealed_event, has_sid,
}
use komms_cli.Protocol.Validate.Defs.{validate_event}

-- Each stage accepts.
pub record Stages {Value : Type 0} (ev : ParsedKommsEvent Value) : Type 0 where
  pub envelope : check_envelope ev ≡ ok tt
  pub fields : check_fields ev ≡ ok tt
  pub v1 : check_v1_if ev ≡ ok tt
  pub sender : check_sealed_sender ev ≡ ok tt
  pub group : check_group ev ≡ ok tt
  pub by_type : check_type ev.t ev ≡ ok tt

pub validate_event-Stages :
    {Value : Type 0} (ev : ParsedKommsEvent Value) → validate_event ev ≡ ok tt → Stages ev
unfolding validate_event
validate_event-Stages ev e =
    let (u₁, e₁) = >>-eq-ok (check_envelope ev) e in
    let (u₂, e₂) = >>-eq-ok (check_fields ev) e₁ in
    let (u₃, e₃) = >>-eq-ok (check_v1_if ev) e₂ in
    let (u₄, e₄) = >>-eq-ok (check_sealed_sender ev) e₃ in
    let (u₅, e₅) = >>-eq-ok (check_group ev) e₄ in
    record { envelope = u₁; fields = u₂; v1 = u₃; sender = u₄; group = u₅; by_type = e₅ }

-- The encryption schemes that may be written.
abbrev pub is_live_scheme : ℕ → Bool
is_live_scheme s = s == 0 || s == 1 || s == 3 || s == 4

check_scheme_live : (s : ℕ) → check_scheme s ≡ ok tt → is_live_scheme s ≡ true
unfolding check_scheme
check_scheme_live s e = ground arith

agree_lem : (a b : Bool) → agree a b ≡ true → b ≡ a
agree_lem true b h = h
agree_lem false b h = ground arith

-- A valid event of version 1 names its scheme, which is 0, 1, 3 or 4 and not the retired 2, its `enc`
-- flag says whether that scheme encrypts, and it has a time and a nonce.
pub validate_event-v1 :
    {Value : Type 0} (ev : ParsedKommsEvent Value)
    → 1 ≤ ev.v
    → validate_event ev ≡ ok tt
    → (s : ℕ) × (ev.enc_scheme ≡ some s)
      × (is_live_scheme s ≡ true)
      × (ev.enc ≡ not (s == 0))
      × (is_some ev.ts ≡ true)
      × (is_some ev.n ≡ true)
unfolding check_v1_if check_v1
validate_event-v1 ev le e =
    let stage : check_v1 ev ≡ ok tt = ground (arith, (validate_event-Stages ev e).v1) in
    let (s, e₁, r₁) = >>=-eq-ok (ok_or ev.enc_scheme (v1_missing_field "enc_scheme")) _ stage in
    let (agrees, r₂) =
      >>-eq-ok (guard (agree (not (s == 0)) ev.enc) (enc_scheme_mismatch s ev.enc)) r₁ in
    let (live, r₃) = >>-eq-ok (check_scheme s) r₂ in
    let (timed, r₄) = >>-eq-ok (guard (is_some ev.ts) (v1_missing_field "ts")) r₃ in
    (
      s,
      ground arith,
      check_scheme_live s live,
      agree_lem (not (s == 0)) ev.enc (ground arith),
      ground arith,
      ground arith,
    )

-- One of the encrypted counterparts of the clear fields is there.
abbrev pub HasCounterpart : {Value : Type 0} → ParsedKommsEvent Value → Type 0
HasCounterpart ev =
    (is_some ev.enc_sid ≡ true)
    ⊎ (is_some ev.enc_cid ≡ true)
    ⊎ (is_some ev.enc_body_ref ≡ true)
    ⊎ (is_some ev.enc_parent_mid ≡ true)
    ⊎ (is_some ev.enc_t ≡ true)

-- The types whose events must not name their server or channel in the clear.
abbrev pub is_sealed : EventType → Bool
is_sealed EventType.sealed_member_join = true
is_sealed EventType.sealed_member_leave = true
is_sealed EventType.key_rotate = true
is_sealed EventType.sealed_event = true
is_sealed _ = false

check_type-is_sealed :
    {Value : Type 0} (t : EventType) (ev : ParsedKommsEvent Value)
    → is_sealed t ≡ true
    → check_type t ev ≡ ok tt
    → (is_some ev.sid ≡ false) × (is_some ev.cid ≡ false)
unfolding check_type check_sealed_join check_sealed_leave check_key_rotate check_sealed_event
check_type-is_sealed EventType.sealed_member_join ev h e = (ground arith, ground arith)
check_type-is_sealed EventType.sealed_member_leave ev h e = (ground arith, ground arith)
check_type-is_sealed EventType.key_rotate ev h e = (ground arith, ground arith)
check_type-is_sealed EventType.sealed_event ev h e = (ground arith, ground arith)
check_type-is_sealed _ ev h e = ground arith

-- A valid sealed event names neither its server nor its channel in the clear.
pub validate_event-is_sealed :
    {Value : Type 0} (ev : ParsedKommsEvent Value)
    → is_sealed ev.t ≡ true
    → validate_event ev ≡ ok tt
    → (is_some ev.sid ≡ false) × (is_some ev.cid ≡ false)
validate_event-is_sealed ev h e =
    check_type-is_sealed ev.t ev h (validate_event-Stages ev e).by_type

target_lem :
    (o : Option (List ℕ))
    → is_some o ≡ true
    → validate_target_bytes o ≡ ok tt
    → (b : List ℕ) × (o ≡ some b) × (2 ≤ length b)
unfolding validate_target_bytes
target_lem none h e = cc
target_lem (some b) h e = (b, refl, ground arith)

role_lem :
    (o : Option ℕ)
    → is_some o ≡ true
    → validate_role_byte o ≡ ok tt
    → (r : ℕ) × (o ≡ some r) × (r ≤ 4)
unfolding validate_role_byte
role_lem none h e = cc
role_lem (some r) h e = (r, refl, ground arith)

-- A valid role assignment has a target of at least two bytes and a role of at most 4.
pub validate_event-role_assign :
    {Value : Type 0} (ev : ParsedKommsEvent Value)
    → ev.t ≡ EventType.role_assign
    → validate_event ev ≡ ok tt
    → (target : List ℕ) × (role : ℕ) × (ev.target ≡ some target)
      × (2 ≤ length target)
      × (ev.role ≡ some role)
      × (role ≤ 4)
unfolding check_type check_role_assign
validate_event-role_assign ev h e =
    let stage : check_role_assign ev ≡ ok tt =
      subst (λ t. check_type t ev ≡ ok tt) h (validate_event-Stages ev e).by_type in
    let (u₁, r₁) = >>-eq-ok (guard (has_sid ev) _) stage in
    let (u₂, r₂) = >>-eq-ok (guard (is_some ev.target) _) r₁ in
    let (u₃, r₃) = >>-eq-ok (guard (is_some ev.role) _) r₂ in
    let (u₄, r₄) = >>-eq-ok (validate_role_byte ev.role) r₃ in
    let (u₅, r₅) = >>-eq-ok (validate_target_bytes ev.target) r₄ in
    let (target, e₁, long) = target_lem ev.target (ground arith) u₅ in
    let (role, e₂, small) = role_lem ev.role (ground arith) u₄ in
    (target, role, e₁, long, e₂, small)

reserved_refused :
    {Value : Type 0} (n : ℕ) (ev : ParsedKommsEvent Value)
    → check_type (EventType.reserved n) ev ≢ ok tt
unfolding check_type
reserved_refused n ev h = cc h

-- No event of a reserved type is valid, none with a version above 1, and none with a sealed sender.
pub validate_event_refuses :
    {Value : Type 0} (ev : ParsedKommsEvent Value)
    → validate_event ev ≡ ok tt
    → (ev.v ≤ 1)
      × ((n : ℕ) → ev.t ≢ EventType.reserved n)
      × (ev.sealed_signer ≡ none)
      × (ev.sig_scheme ≢ some 1)
unfolding check_envelope check_sealed_sender check_type
validate_event_refuses ev e =
    let s = validate_event-Stages ev e in
    (
      ground (arith, s.envelope),
      λ n h. reserved_refused n ev (subst (λ t. check_type t ev ≡ ok tt) h s.by_type),
      ground (arith, s.sender),
      λ h. ground (arith, s.sender),
    )
