-- ===== src/Protocol/Typed/Stages.antt =====
-- protocol/src/lib.rs: what each stage of `parse_cbor_map` establishes of the fields that it reads.
use komms_cli.Base.{
  ℕ, ◌<◌, List, Bool, true, Option, none, some, ◌≡◌, length, is_some, IsU64, arith,
}
use komms_cli.Protocol.RoundTrip.WellTyped.{Holds}
use komms_cli.Protocol.EventType.{as_u8, from_u8}
use komms_cli.Protocol.Event.{ParsedKommsEvent}
use komms_cli.Protocol.FieldMap.{FieldMap}
use komms_cli.Protocol.FieldMap.Kept.{IsMap}
use komms_cli.Protocol.Ciborium.{Ciborium}
use komms_cli.Protocol.Parse.Stages.{
  parse_envelope, parse_v0_core, parse_v1_core, parse_v1_1_core, parse_roles, synthesise_scheme,
  clamp_role,
}
use komms_cli.Protocol.Typed.Pop.{
  Yields, and_then-Ensures, event_type-Yields, pop_uint-Yields, pop_uint_opt-Yields,
  pop_bytes32-Yields, pop_bytes16-Yields, pop_bytes-Yields, pop_text_opt-Yields, pop_sig-Yields,
  pop_enc-Yields,
}

abbrev pub HashOpt : Option (List ℕ) → Type 0
HashOpt = Holds (λ b. length b ≡ 32)

abbrev pub TagOpt : Option (List ℕ) → Type 0
TagOpt = Holds (λ b. length b ≡ 16)

abbrev pub UintOpt : Option ℕ → Type 0
UintOpt = Holds (λ n. IsU64 n)

module _ {Value : Type 0} (ev : ParsedKommsEvent Value) where
  -- Keys 0 and 1: the event type is the one of its discriminant.
  abbrev pub EnvelopeTyped : Type 0
  EnvelopeTyped = IsU64 ev.v × (as_u8 ev.t < 256) × (from_u8 (as_u8 ev.t) ≡ ev.t)

  -- Keys 2 to 7 and 9 to 11.
  abbrev pub V0Typed : Type 0
  V0Typed =
      HashOpt ev.sid
      × HashOpt ev.cid
      × HashOpt ev.did
      × HashOpt ev.pid
      × HashOpt ev.mid
      × UintOpt ev.ts
      × UintOpt ev.n
      × Holds (λ b. length b ≡ 64) ev.sig

  -- Keys 12 to 20; a v0 event has a scheme.
  abbrev pub V1Typed : Type 0
  V1Typed =
      HashOpt ev.parent_mid
      × UintOpt ev.enc_scheme
      × UintOpt ev.kind
      × UintOpt ev.ref_type
      × HashOpt ev.device_pk
      × UintOpt ev.sig_scheme
      × (ev.v ≡ 0 → is_some ev.enc_scheme ≡ true)

  -- Keys 21 to 30.
  abbrev pub V11Typed : Type 0
  V11Typed = TagOpt ev.member_tag × TagOpt ev.match_tag × UintOpt ev.key_epoch

  -- Keys 31 and 32.
  abbrev pub RolesTyped : Type 0
  RolesTyped = Holds (λ n. n < 256) ev.role

synthesise_scheme-UintOpt :
    (v : ℕ) (enc : Bool) (o : Option ℕ) → UintOpt o → UintOpt (synthesise_scheme v enc o)
unfolding synthesise_scheme
synthesise_scheme-UintOpt v enc none h = ground arith
synthesise_scheme-UintOpt v enc (some n) h = ground arith

is_some-synthesise_scheme :
    (v : ℕ) (enc : Bool) (o : Option ℕ) → v ≡ 0 → is_some (synthesise_scheme v enc o) ≡ true
unfolding synthesise_scheme
is_some-synthesise_scheme v enc none h = ground arith
is_some-synthesise_scheme v enc (some n) h = ground arith

clamp_role_small : (o : Option ℕ) → Holds (λ n. n < 256) (clamp_role o)
unfolding clamp_role
clamp_role_small none = tt
clamp_role_small (some n) = ground arith

module _ (C : Ciborium) where
  open C use {Value}

  abbrev pub ThroughV0 : ParsedKommsEvent Value → Type 0
  ThroughV0 ev = EnvelopeTyped ev × V0Typed ev

  abbrev pub ThroughV1 : ParsedKommsEvent Value → Type 0
  ThroughV1 ev = ThroughV0 ev × V1Typed ev

  abbrev pub ThroughV11 : ParsedKommsEvent Value → Type 0
  ThroughV11 ev = ThroughV1 ev × V11Typed ev

  abbrev pub ThroughRoles : ParsedKommsEvent Value → Type 0
  ThroughRoles ev = ThroughV11 ev × RolesTyped ev

  pub parse_envelope-Yields :
      (m : FieldMap Value) → IsMap m → Yields EnvelopeTyped (parse_envelope C m)
  unfolding parse_envelope
  parse_envelope-Yields m i = and_then-Ensures _ _ _ _ (pop_uint-Yields C 0 "v" m i) (λ v m1 h1 i1.
      and_then-Ensures _ _ _ _ (pop_uint-Yields C 1 "t" m1 i1) (λ t_raw m2 h2 i2.
        and_then-Ensures _ _ _ _ (event_type-Yields t_raw m2 i2) (λ t m3 h3 i3.
          and_then-Ensures _ _ _ _ (pop_enc-Yields C m3 i3)
            (λ enc m4 h4 i4. ((h1, h3.0, h3.1), i4)))))

  pub parse_v0_core-Yields :
      (base : ParsedKommsEvent Value) (m : FieldMap Value)
      → EnvelopeTyped base
      → IsMap m
      → Yields ThroughV0 (parse_v0_core C base m)
  unfolding parse_v0_core
  parse_v0_core-Yields base m b i =
      and_then-Ensures _ _ _ _ (pop_bytes32-Yields C 2 "sid" m i) (λ sid m1 h1 i1.
        and_then-Ensures _ _ _ _ (pop_bytes32-Yields C 3 "cid" m1 i1) (λ cid m2 h2 i2.
          and_then-Ensures _ _ _ _ (pop_bytes32-Yields C 4 "did" m2 i2) (λ did m3 h3 i3.
            and_then-Ensures _ _ _ _ (pop_bytes32-Yields C 5 "pid" m3 i3) (λ pid m4 h4 i4.
              and_then-Ensures _ _ _ _ (pop_bytes32-Yields C 6 "mid" m4 i4) (λ mid m5 h5 i5.
                and_then-Ensures _ _ _ _ (pop_bytes-Yields C 7 "ref" m5 i5) (λ ref_bytes m6 h6 i6.
                  and_then-Ensures _ _ _ _ (pop_uint_opt-Yields C 9 "ts" m6 i6) (λ ts m7 h7 i7.
                    and_then-Ensures _ _ _ _ (pop_uint_opt-Yields C 10 "n" m7 i7) (λ n m8 h8 i8.
                      and_then-Ensures _ _ _ _ (pop_sig-Yields C m8 i8)
                        (λ sig m9 h9 i9. ((b, (h1, h2, h3, h4, h5, h7, h8, h9)), i9))))))))))

  pub parse_v1_core-Yields :
      (base : ParsedKommsEvent Value) (m : FieldMap Value)
      → ThroughV0 base
      → IsMap m
      → Yields ThroughV1 (parse_v1_core C base m)
  unfolding parse_v1_core
  parse_v1_core-Yields base m b i =
      and_then-Ensures _ _ _ _ (pop_bytes32-Yields C 12 "parent_mid" m i) (λ parent_mid m1 h1 i1.
        and_then-Ensures _ _ _ _ (pop_uint_opt-Yields C 13 "enc_scheme" m1 i1)
          (λ enc_scheme m2 h2 i2.
            and_then-Ensures _ _ _ _ (pop_uint_opt-Yields C 14 "kind" m2 i2) (λ kind m3 h3 i3.
              and_then-Ensures _ _ _ _ (pop_text_opt-Yields C 15 "mime" m3 i3) (λ mime m4 h4 i4.
                and_then-Ensures _ _ _ _ (pop_uint_opt-Yields C 16 "ref_type" m4 i4)
                  (λ ref_type m5 h5 i5.
                    and_then-Ensures _ _ _ _ (pop_bytes32-Yields C 17 "device_pk" m5 i5)
                      (λ device_pk m6 h6 i6.
                        and_then-Ensures _ _ _ _ (pop_uint_opt-Yields C 18 "sig_scheme" m6 i6)
                          (λ sig_scheme m7 h7 i7.
                            and_then-Ensures _ _ _ _ (pop_bytes-Yields C 19 "reaction_key" m7 i7)
                              (λ reaction_key m8 h8 i8.
                                and_then-Ensures _ _ _ _
                                  (pop_bytes-Yields C 20 "payment_hint" m8 i8)
                                  (λ payment_hint m9 h9 i9. (
                                    (
                                      b,
                                      (
                                        h1,
                                        synthesise_scheme-UintOpt base.v base.enc enc_scheme h2,
                                        h3,
                                        h5,
                                        h6,
                                        h7,
                                        λ e. is_some-synthesise_scheme base.v base.enc enc_scheme e,
                                      ),
                                    ),
                                    i9,
                                  ))))))))))

  pub parse_v1_1_core-Yields :
      (base : ParsedKommsEvent Value) (m : FieldMap Value)
      → ThroughV1 base
      → IsMap m
      → Yields ThroughV11 (parse_v1_1_core C base m)
  unfolding parse_v1_1_core
  parse_v1_1_core-Yields base m b i =
      and_then-Ensures _ _ _ _ (pop_bytes16-Yields C 21 "member_tag" m i) (λ member_tag m1 h1 i1.
        and_then-Ensures _ _ _ _ (pop_bytes-Yields C 22 "member_sealed" m1 i1)
          (λ member_sealed m2 h2 i2.
            and_then-Ensures _ _ _ _ (pop_bytes-Yields C 23 "enc_sid" m2 i2) (λ enc_sid m3 h3 i3.
              and_then-Ensures _ _ _ _ (pop_bytes-Yields C 24 "enc_cid" m3 i3) (λ enc_cid m4 h4 i4.
                and_then-Ensures _ _ _ _ (pop_bytes-Yields C 25 "enc_body_ref" m4 i4)
                  (λ enc_body_ref m5 h5 i5.
                    and_then-Ensures _ _ _ _ (pop_bytes-Yields C 26 "enc_parent_mid" m5 i5)
                      (λ enc_parent_mid m6 h6 i6.
                        and_then-Ensures _ _ _ _ (pop_bytes16-Yields C 27 "match_tag" m6 i6)
                          (λ match_tag m7 h7 i7.
                            and_then-Ensures _ _ _ _ (pop_bytes-Yields C 28 "enc_t" m7 i7)
                              (λ enc_t m8 h8 i8.
                                and_then-Ensures _ _ _ _
                                  (pop_uint_opt-Yields C 29 "key_epoch" m8 i8)
                                  (λ key_epoch m9 h9 i9.
                                    and_then-Ensures _ _ _ _
                                      (pop_bytes-Yields C 30 "sealed_signer" m9 i9)
                                      (λ sealed_signer m10 h10 i10.
                                        ((b, (h1, h7, h9)), i10)))))))))))

  pub parse_roles-Yields :
      (base : ParsedKommsEvent Value) (m : FieldMap Value)
      → ThroughV11 base
      → IsMap m
      → Yields ThroughRoles (parse_roles C base m)
  unfolding parse_roles
  parse_roles-Yields base m b i =
      and_then-Ensures _ _ _ _ (pop_uint_opt-Yields C 31 "role" m i) (λ role m1 h1 i1.
        and_then-Ensures _ _ _ _ (pop_bytes-Yields C 32 "target" m1 i1)
          (λ target m2 h2 i2. ((b, clamp_role_small role), i2)))
