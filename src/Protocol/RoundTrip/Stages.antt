-- ===== src/Protocol/RoundTrip/Stages.antt =====
-- Each stage of the parser reads back the fields that the encoder pushed for it.
use komms_cli.Base.{
  ℕ, [], ◌∷◌, ◌++◌, Option, none, some, ok, ◌≡◌, ◌<◌, ◌≤◌, refl, arith, drop, take, lt→ltb,
}
use komms_cli.Protocol.RoundTrip.WellTyped.{
  Holds, written_scheme-Holds, written_scheme, role_lem, IsWellTyped,
}
use komms_cli.Protocol.EventType.{as_u8, from_u8}
use komms_cli.Protocol.Event.{ParsedKommsEvent}
use komms_cli.Protocol.FieldMap.{FieldMap, Above, Above-weaken}
use komms_cli.Protocol.Ciborium.{Ciborium}
use komms_cli.Protocol.Parse.Pop.{default_event, event_type}
use komms_cli.Protocol.Parse.Stages.{
  parse_envelope, parse_v0_core, parse_v1_core, parse_v1_1_core, parse_roles, synthesise_scheme,
  clamp_role,
}
use komms_cli.Protocol.Encode.{
  uints, byte_strings, pushed, v0_slots, v1_slots, v1_1_slots, role_slots,
}
use komms_cli.Protocol.RoundTrip.Slots.{
  pop_uint-pushed, pop_uint_opt-pushed, pop_bytes32-pushed, pop_bytes16-pushed, pop_bytes-pushed,
  pop_text_opt-pushed, pop_sig-pushed, pop_enc-pushed,
}
use komms_cli.Protocol.RoundTrip.Pushed.{Slots}

clamp_role_lem : (r : Option ℕ) → Holds (λ x. x < 256) r → clamp_role r ≡ r
unfolding clamp_role
clamp_role_lem none h = refl
clamp_role_lem (some x) h = ground arith

module _ (C : Ciborium) where
  open C use {Value}

  pushed-nil : (m : FieldMap Value) → pushed [] ++ m ≡ m
  unfolding pushed
  pushed-nil m = refl

  -- Keys 21 to 30.
  pub parse_v1_1_core-pushed :
      (base ev : ParsedKommsEvent Value) (m : FieldMap Value)
      → IsWellTyped ev
      → Above 30 m
      → parse_v1_1_core C base (pushed (v1_1_slots C ev) ++ m)
        ≡ ok (
          record base {
            member_tag = ev.member_tag;
            member_sealed = ev.member_sealed;
            enc_sid = ev.enc_sid;
            enc_cid = ev.enc_cid;
            enc_body_ref = ev.enc_body_ref;
            enc_parent_mid = ev.enc_parent_mid;
            match_tag = ev.match_tag;
            enc_t = ev.enc_t;
            key_epoch = ev.key_epoch;
            sealed_signer = ev.sealed_signer;
          },
          m,
        )
  unfolding parse_v1_1_core v0_slots v1_slots v1_1_slots role_slots
  parse_v1_1_core-pushed base ev m w a =
      let above = λ (k : ℕ) (h : k ≤ 30). Above-weaken k 30 m h a in
      let s = v1_1_slots C ev in
      rw (
        pop_bytes16-pushed C 21 "member_tag" [] (drop 1 s) m tt (omega arith)
            (above 21 (omega arith)) ev.member_tag w.member_tag_len,
        pop_bytes-pushed C 22 "member_sealed" [] (drop 2 s) m tt (omega arith)
            (above 22 (omega arith)) ev.member_sealed,
        pop_bytes-pushed C 23 "enc_sid" [] (drop 3 s) m tt (omega arith) (above 23 (omega arith))
            ev.enc_sid,
        pop_bytes-pushed C 24 "enc_cid" [] (drop 4 s) m tt (omega arith) (above 24 (omega arith))
            ev.enc_cid,
        pop_bytes-pushed C 25 "enc_body_ref" [] (drop 5 s) m tt (omega arith)
            (above 25 (omega arith)) ev.enc_body_ref,
        pop_bytes-pushed C 26 "enc_parent_mid" [] (drop 6 s) m tt (omega arith)
            (above 26 (omega arith)) ev.enc_parent_mid,
        pop_bytes16-pushed C 27 "match_tag" [] (drop 7 s) m tt (omega arith)
            (above 27 (omega arith)) ev.match_tag w.match_tag_len,
        pop_bytes-pushed C 28 "enc_t" [] (drop 8 s) m tt (omega arith) (above 28 (omega arith))
            ev.enc_t,
        pop_uint_opt-pushed C 29 "key_epoch" [] (drop 9 s) m tt (omega arith)
            (above 29 (omega arith)) ev.key_epoch w.key_epoch_u64,
        pop_bytes-pushed C 30 "sealed_signer" [] (drop 10 s) m tt (omega arith)
            (above 30 (omega arith)) ev.sealed_signer,
        pushed-nil m,
      )

  -- The slots that `parse_envelope` leaves.
  abbrev pub body_slots : ParsedKommsEvent Value → Slots Value
  body_slots ev =
      (2, byte_strings C ev.sid)
      ∷ (3, byte_strings C ev.cid)
      ∷ (4, byte_strings C ev.did)
      ∷ (5, byte_strings C ev.pid)
      ∷ (6, byte_strings C ev.mid)
      ∷ (7, byte_strings C ev.ref_bytes)
      ∷ (9, uints C ev.ts)
      ∷ (10, uints C ev.n)
      ∷ (11, byte_strings C ev.sig)
      ∷ []

  -- Keys 2 to 7 and 9 to 11.
  pub parse_v0_core-pushed :
      (base ev : ParsedKommsEvent Value) (m : FieldMap Value)
      → IsWellTyped ev
      → Above 11 m
      → parse_v0_core C base (pushed (body_slots ev) ++ m)
        ≡ ok (
          record base {
            sid = ev.sid;
            cid = ev.cid;
            did = ev.did;
            pid = ev.pid;
            mid = ev.mid;
            ref_bytes = ev.ref_bytes;
            ts = ev.ts;
            n = ev.n;
            sig = ev.sig;
          },
          m,
        )
  unfolding parse_v0_core v0_slots v1_slots v1_1_slots role_slots
  parse_v0_core-pushed base ev m w a =
      let above = λ (k : ℕ) (h : k ≤ 11). Above-weaken k 11 m h a in
      let s = body_slots ev in
      rw (
        pop_bytes32-pushed C 2 "sid" [] (drop 1 s) m tt (omega arith) (above 2 (omega arith)) ev.sid
            w.sid_len,
        pop_bytes32-pushed C 3 "cid" [] (drop 2 s) m tt (omega arith) (above 3 (omega arith)) ev.cid
            w.cid_len,
        pop_bytes32-pushed C 4 "did" [] (drop 3 s) m tt (omega arith) (above 4 (omega arith)) ev.did
            w.did_len,
        pop_bytes32-pushed C 5 "pid" [] (drop 4 s) m tt (omega arith) (above 5 (omega arith)) ev.pid
            w.pid_len,
        pop_bytes32-pushed C 6 "mid" [] (drop 5 s) m tt (omega arith) (above 6 (omega arith)) ev.mid
            w.mid_len,
        pop_bytes-pushed C 7 "ref" [] (drop 6 s) m tt (omega arith) (above 7 (omega arith))
            ev.ref_bytes,
        pop_uint_opt-pushed C 9 "ts" [] (drop 7 s) m tt (omega arith) (above 9 (omega arith)) ev.ts
            w.ts_u64,
        pop_uint_opt-pushed C 10 "n" [] (drop 8 s) m tt (omega arith) (above 10 (omega arith)) ev.n
            w.n_u64,
        pop_sig-pushed C [] (drop 9 s) m tt (omega arith) (above 11 (omega arith)) ev.sig w.sig_len,
        pushed-nil m,
      )

  -- Keys 12 to 20.
  pub parse_v1_core-pushed :
      (base ev : ParsedKommsEvent Value) (m : FieldMap Value)
      → IsWellTyped ev
      → Above 20 m
      → parse_v1_core C base (pushed (v1_slots C ev) ++ m)
        ≡ ok (
          record base {
            parent_mid = ev.parent_mid;
            enc_scheme = synthesise_scheme base.v base.enc (written_scheme ev);
            kind = ev.kind;
            mime = ev.mime;
            ref_type = ev.ref_type;
            device_pk = ev.device_pk;
            sig_scheme = ev.sig_scheme;
            reaction_key = ev.reaction_key;
            payment_hint = ev.payment_hint;
          },
          m,
        )
  unfolding parse_v1_core v0_slots v1_slots v1_1_slots role_slots
  parse_v1_core-pushed base ev m w a =
      let above = λ (k : ℕ) (h : k ≤ 20). Above-weaken k 20 m h a in
      let s = v1_slots C ev in
      rw (
        pop_bytes32-pushed C 12 "parent_mid" [] (drop 1 s) m tt (omega arith)
            (above 12 (omega arith)) ev.parent_mid w.parent_mid_len,
        pop_uint_opt-pushed C 13 "enc_scheme" [] (drop 2 s) m tt (omega arith)
            (above 13 (omega arith)) (written_scheme ev) (written_scheme-Holds ev w),
        pop_uint_opt-pushed C 14 "kind" [] (drop 3 s) m tt (omega arith) (above 14 (omega arith))
            ev.kind w.kind_u64,
        pop_text_opt-pushed C 15 "mime" [] (drop 4 s) m tt (omega arith) (above 15 (omega arith))
            ev.mime,
        pop_uint_opt-pushed C 16 "ref_type" [] (drop 5 s) m tt (omega arith)
            (above 16 (omega arith)) ev.ref_type w.ref_type_u64,
        pop_bytes32-pushed C 17 "device_pk" [] (drop 6 s) m tt (omega arith)
            (above 17 (omega arith)) ev.device_pk w.device_pk_len,
        pop_uint_opt-pushed C 18 "sig_scheme" [] (drop 7 s) m tt (omega arith)
            (above 18 (omega arith)) ev.sig_scheme w.sig_scheme_u64,
        pop_bytes-pushed C 19 "reaction_key" [] (drop 8 s) m tt (omega arith)
            (above 19 (omega arith)) ev.reaction_key,
        pop_bytes-pushed C 20 "payment_hint" [] (drop 9 s) m tt (omega arith)
            (above 20 (omega arith)) ev.payment_hint,
        pushed-nil m,
      )

  -- Keys 31 and 32.
  pub parse_roles-pushed :
      (base ev : ParsedKommsEvent Value) (m : FieldMap Value)
      → IsWellTyped ev
      → Above 32 m
      → parse_roles C base (pushed (role_slots C ev) ++ m)
        ≡ ok (record base { role = ev.role; target = ev.target }, m)
  unfolding parse_roles v0_slots v1_slots v1_1_slots role_slots
  parse_roles-pushed base ev m w a =
      let above = λ (k : ℕ) (h : k ≤ 32). Above-weaken k 32 m h a in
      let s = role_slots C ev in
      rw (
        pop_uint_opt-pushed C 31 "role" [] (drop 1 s) m tt (omega arith) (above 31 (omega arith))
            ev.role (role_lem ev.role w.role_u8),
        pop_bytes-pushed C 32 "target" [] (drop 2 s) m tt (omega arith) (above 32 (omega arith))
            ev.target,
        pushed-nil m,
        clamp_role_lem ev.role w.role_u8,
      )

  -- Keys 0, 1 and 8.
  pub parse_envelope-pushed :
      (ev : ParsedKommsEvent Value) (m : FieldMap Value)
      → IsWellTyped ev
      → Above 11 m
      → from_u8 (as_u8 ev.t) ≡ ev.t
      → parse_envelope C (pushed (v0_slots C ev) ++ m)
        ≡ ok
            (record default_event { v = ev.v; t = ev.t; enc = ev.enc }, pushed (body_slots ev) ++ m)
  unfolding parse_envelope v0_slots event_type
  parse_envelope-pushed ev m w a known =
      let above = λ (k : ℕ) (h : k ≤ 11). Above-weaken k 11 m h a in
      let s = v0_slots C ev in
      rw (
        pop_uint-pushed C 0 "v" [] (drop 1 s) m tt (omega arith) (above 0 (omega arith)) ev.v
            w.v_u64,
        pop_uint-pushed C 1 "t" [] (drop 2 s) m tt (omega arith) (above 1 (omega arith))
            (as_u8 ev.t) (omega (arith, w.t_u8)),
        lt→ltb (as_u8 ev.t) 256 w.t_u8,
        pop_enc-pushed C (take 6 (drop 2 s)) (drop 9 s) m (omega arith) (omega arith)
            (above 8 (omega arith)) ev.enc,
        known,
      )
