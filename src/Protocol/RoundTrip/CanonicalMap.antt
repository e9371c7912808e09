-- ===== src/Protocol/RoundTrip/CanonicalMap.antt =====
-- The event's map is canonical CBOR, so the whole payload parses back.
use komms_cli.Base.{ℕ, List, Option, none, some, ◌≡◌, arith, length, IsU64}
use mathlib.Core.Option
use komms_cli.Canonical.Grammar.{dict, IsCanonical}
use komms_cli.Protocol.RoundTrip.WellTyped.{
  Holds, IsWellTyped, written_scheme, written_scheme-Holds, role_lem,
}
use komms_cli.Protocol.Event.{ParsedKommsEvent}
use komms_cli.Protocol.EventType.{as_u8}
use komms_cli.Protocol.Ciborium.{Ciborium, Writes, written}
use komms_cli.Protocol.Encode.{
  v0_slots, v1_slots, v1_1_slots, role_slots, event_fields, event_value, keyed,
}
use komms_cli.Protocol.RoundTrip.Fields.{IsEncodable, event_fields-Ascends, event_fields-Below}
use komms_cli.Protocol.RoundTrip.Written.{
  AllWrite, SlotsWrite, Fits, WritesCanonical, AllWrite-pushed, length-keyed, Entries-keyed,
  integer-Writes, bytes-Writes, text-Writes, sized-Writes, boolean-Writes,
}

module _ (C : Ciborium) (w : Writes C) (ev : ParsedKommsEvent C.Value) (t : IsWellTyped ev)
    (f : Fits C ev) where
  open C use {Value, bytes, into_writer}

  id-Writes :
      (o : Option (List ℕ))
      → Holds (λ b. length b ≡ 32) o
      → Holds (WritesCanonical C) (Option.map bytes o)
  id-Writes o h = sized-Writes C w 32 o (omega arith) h

  v0_slots-Write : SlotsWrite C (v0_slots C ev)
  unfolding v0_slots
  v0_slots-Write = (
    integer-Writes C w (some ev.v) t.v_u64,
    (
      integer-Writes C w (some (as_u8 ev.t)) (omega (arith, t.t_u8)),
      (
        id-Writes ev.sid t.sid_len,
        (
          id-Writes ev.cid t.cid_len,
          (
            id-Writes ev.did t.did_len,
            (
              id-Writes ev.pid t.pid_len,
              (
                id-Writes ev.mid t.mid_len,
                (
                  bytes-Writes C w ev.ref_bytes f.ref_bytes_fits,
                  (
                    boolean-Writes C w ev.enc,
                    (
                      integer-Writes C w ev.ts t.ts_u64,
                      (
                        integer-Writes C w ev.n t.n_u64,
                        (sized-Writes C w 64 ev.sig (omega arith) t.sig_len, tt),
                      ),
                    ),
                  ),
                ),
              ),
            ),
          ),
        ),
      ),
    ),
  )

  v1_slots-Write : SlotsWrite C (v1_slots C ev)
  unfolding v1_slots
  v1_slots-Write = (
    id-Writes ev.parent_mid t.parent_mid_len,
    (
      integer-Writes C w (written_scheme ev) (written_scheme-Holds ev t),
      (
        integer-Writes C w ev.kind t.kind_u64,
        (
          text-Writes C w ev.mime f.mime_fits,
          (
            integer-Writes C w ev.ref_type t.ref_type_u64,
            (
              id-Writes ev.device_pk t.device_pk_len,
              (
                integer-Writes C w ev.sig_scheme t.sig_scheme_u64,
                (
                  bytes-Writes C w ev.reaction_key f.reaction_key_fits,
                  (bytes-Writes C w ev.payment_hint f.payment_hint_fits, tt),
                ),
              ),
            ),
          ),
        ),
      ),
    ),
  )

  v1_1_slots-Write : SlotsWrite C (v1_1_slots C ev)
  unfolding v1_1_slots
  v1_1_slots-Write = (
    sized-Writes C w 16 ev.member_tag (omega arith) t.member_tag_len,
    (
      bytes-Writes C w ev.member_sealed f.member_sealed_fits,
      (
        bytes-Writes C w ev.enc_sid f.enc_sid_fits,
        (
          bytes-Writes C w ev.enc_cid f.enc_cid_fits,
          (
            bytes-Writes C w ev.enc_body_ref f.enc_body_ref_fits,
            (
              bytes-Writes C w ev.enc_parent_mid f.enc_parent_mid_fits,
              (
                sized-Writes C w 16 ev.match_tag (omega arith) t.match_tag_len,
                (
                  bytes-Writes C w ev.enc_t f.enc_t_fits,
                  (
                    integer-Writes C w ev.key_epoch t.key_epoch_u64,
                    (bytes-Writes C w ev.sealed_signer f.sealed_signer_fits, tt),
                  ),
                ),
              ),
            ),
          ),
        ),
      ),
    ),
  )

  role_slots-Write : SlotsWrite C (role_slots C ev)
  unfolding role_slots
  role_slots-Write = (
    integer-Writes C w ev.role (role_lem ev.role t.role_u8),
    (bytes-Writes C w ev.target f.target_fits, tt),
  )

  event_fields-Write : AllWrite C (event_fields C ev)
  unfolding event_fields
  event_fields-Write = AllWrite-pushed C (v0_slots C ev) _ v0_slots-Write (
      AllWrite-pushed C (v1_slots C ev) _ v1_slots-Write (
        AllWrite-pushed C (v1_1_slots C ev) _ v1_1_slots-Write
          (AllWrite-pushed C (role_slots C ev) _ role_slots-Write f.extension_writes)))

module _ (C : Ciborium) (w : Writes C) (ev : ParsedKommsEvent C.Value) (enc : IsEncodable ev)
    (f : Fits C ev) where
  open C use {Value, into_writer}

  -- The map that the encoder builds for an encodable event whose byte strings fit a CBOR length is written
  -- as one canonical item of at most nine levels, if the CBOR writer writes the smallest heads.
  pub IsCanonical-event_value : IsCanonical 9 (into_writer (event_value C ev))
  unfolding event_value
  IsCanonical-event_value =
      let m = event_fields C ev in
      let a = event_fields-Ascends C ev enc in
      let b = event_fields-Below C ev enc in
      let count : IsU64 (length (keyed C m)) =
        omega (arith, length-keyed C 0 m (omega arith) a b) in
      dict (length (keyed C m)) (written C (keyed C m)) count
        (Entries-keyed C w none 0 m (λ j h. tt) a b (event_fields-Write C w ev enc.typed f))
        (w.writes_dict (keyed C m) count)
