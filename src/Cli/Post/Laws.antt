-- ===== src/Cli/Post/Laws.antt =====
-- src/lib.rs: what the command `post` writes, and when it refuses.
use komms_cli.Base.{
  Ensures-ok, ℕ, List, [], Bool, Option, none, Result, ok, ◌>>◌, map_err, map_err-eq-ok, ◌≡◌, refl,
  sym, ◌∙◌, length, >>=-eq-ok, >>-eq-ok, ◌++◌, ok_or, subst, ascii, ◌∷◌,
}
use komms_cli.Hex.{FasterHex}
use komms_cli.Protocol.Event.{ParsedKommsEvent, komms_payload_prefix}
use komms_cli.Protocol.Ciborium.{Ciborium, Writes}
use komms_cli.Protocol.Validate.Guards.{check_ref}
use komms_cli.Protocol.Validate.Defs.{validate_event}
use komms_cli.Protocol.Encode.{encode_cbor_map, encode_komms_payload, event_value}
use komms_cli.Protocol.Payload.{parse_komms_payload}
use komms_cli.Protocol.Ids.{participant_id, sha256_domain, concat}
use komms_cli.Protocol.Typed.Reencode.{recheck_ref-check_ref}
use komms_cli.Protocol.RoundTrip.Fields.{IsEncodable}
use komms_cli.Protocol.RoundTrip.Written.{Fits}
use komms_cli.Protocol.RoundTrip.Payload.{
  parse_komms_payload-encode_komms_payload, encode_komms_payload_inv,
}
use komms_cli.Cli.Post.Commands.{Text, PostCmd}
use komms_cli.Cli.Addresses.{KaspaAddresses}
use komms_cli.Cli.Post.Args.{encode, bad_address}
use komms_cli.Cli.Post.Build.{build_post_ev}
use komms_cli.Cli.Post.Patch.{
  member_address, patch_member_join_leave_pid, creator_address_body_from_addr, post,
}
use komms_cli.Cli.Post.Literal.{stored, IsMetaU64}
use komms_cli.Cli.Post.Built.{IsBuilt, with_pid, supplies, meta_of}
use komms_cli.Cli.Post.Returned.{build_post_ev-IsBuilt}

pair_ok :
    {E A B : Type 0} (a : A) (b : B) (c : A) (d : B)
    → ◌≡◌ {A = Result E (A × B)} (ok (a, b)) (ok (c, d))
    → (a ≡ c) × (b ≡ d)
pair_ok a b c d e = (cc, cc)

module _ (K : KaspaAddresses) (sha256 : List ℕ → List ℕ) where
  participant_bytes : K.Address → List ℕ
  participant_bytes a =
      ascii "KOMMS_PARTICIPANT_V0" ++ concat (creator_address_body_from_addr K sha256 a ∷ [])

  -- The participant is a hash of the address; the other commands are left as they are.
  patched :
      {Value : Type 0} (built ev : ParsedKommsEvent Value) (cmd : PostCmd) (submit : Bool)
      (change_address : Option Text)
      → patch_member_join_leave_pid K sha256 built cmd submit change_address ≡ ok ev
      → (m : List ℕ) × (ev ≡ with_pid cmd (sha256 m) built)
  unfolding participant_bytes patch_member_join_leave_pid participant_id sha256_domain
  patched built ev (PostCmd.member_join sid address ref_hex meta) submit change_address e =
      let (s, e₁, r₁) = >>=-eq-ok (member_address address submit change_address) _ e in
      let (a, e₂, r₂) = >>=-eq-ok (ok_or (K.try_into s) bad_address) _ r₁ in
      (participant_bytes a, cc r₂)
  patched built ev (PostCmd.member_leave sid address ref_hex meta) submit change_address e =
      let (s, e₁, r₁) = >>=-eq-ok (member_address address submit change_address) _ e in
      let (a, e₂, r₂) = >>=-eq-ok (ok_or (K.try_into s) bad_address) _ r₁ in
      (participant_bytes a, cc r₂)
  patched built ev _ submit change_address e = ([], cc e)

  module _ (C : Ciborium) (H : FasterHex) (cmd : PostCmd) (submit : Bool)
      (change_address : Option Text) where
    -- The event of a command passes validation exactly if its `ref` is well formed and the command can
    -- supply what the arm of its event type asks for.
    validate_event-post :
        (built ev : ParsedKommsEvent C.Value)
        → build_post_ev H cmd ≡ ok built
        → patch_member_join_leave_pid K sha256 built cmd submit change_address ≡ ok ev
        → validate_event ev ≡ (check_ref ev.ref_bytes none >> supplies cmd)
    validate_event-post built ev b e =
        let shape =
          Ensures-ok (IsBuilt C cmd) (build_post_ev H cmd) b (build_post_ev-IsBuilt C H cmd) in
        let (m, same) = patched built ev cmd submit change_address e in
        rw same (shape.accepts (sha256 m))

    -- When the arguments are read, the `ref` is well formed and the command can supply what its event type
    -- asks for, `post` writes the payload of the event.
    pub post_writes :
        (built ev : ParsedKommsEvent C.Value)
        → build_post_ev H cmd ≡ ok built
        → patch_member_join_leave_pid K sha256 built cmd submit change_address ≡ ok ev
        → check_ref ev.ref_bytes none ≡ ok tt
        → supplies cmd ≡ ok tt
        → post K sha256 H C cmd submit change_address
          ≡ ok (ev, komms_payload_prefix ++ C.into_writer (event_value C ev))
    unfolding post encode_komms_payload encode_cbor_map
    post_writes built ev b e r s =
        rw (b, e, validate_event-post built ev b e, r, s, recheck_ref-check_ref ev.ref_bytes none r)
          refl

    pub post_inv :
        (ev : ParsedKommsEvent C.Value) (raw : List ℕ)
        → post K sha256 H C cmd submit change_address ≡ ok (ev, raw)
        → (built : ParsedKommsEvent C.Value) × (build_post_ev H cmd ≡ ok built)
          × (patch_member_join_leave_pid K sha256 built cmd submit change_address ≡ ok ev)
          × (encode_komms_payload C ev ≡ ok raw)
    unfolding post
    post_inv ev raw e =
        let (built, e₁, r₁) = >>=-eq-ok (build_post_ev H cmd) _ e in
        let (ev', e₂, r₂) =
          >>=-eq-ok (patch_member_join_leave_pid K sha256 built cmd submit change_address) _ r₁ in
        let (raw', e₃, r₃) = >>=-eq-ok (map_err encode (encode_komms_payload C ev')) _ r₂ in
        let (same_ev, same_raw) = pair_ok ev' raw' ev raw r₃ in
        (
          built,
          e₁,
          cc (same_ev, e₂),
          cc (same_ev, same_raw, map_err-eq-ok encode (encode_komms_payload C ev') raw' e₃),
        )

    pub post_encodes :
        (ev : ParsedKommsEvent C.Value) (raw : List ℕ)
        → post K sha256 H C cmd submit change_address ≡ ok (ev, raw)
        → encode_komms_payload C ev ≡ ok raw
    post_encodes ev raw e = (post_inv ev raw e).3

    -- `post` never writes a payload for role-assign or role-revoke, nor for a reaction without a `ref`: a
    -- command whose payload is written supplies what the arm of its event type asks for.
    pub post_refuses :
        (ev : ParsedKommsEvent C.Value) (raw : List ℕ)
        → post K sha256 H C cmd submit change_address ≡ ok (ev, raw)
        → supplies cmd ≡ ok tt
    post_refuses ev raw e =
        let (built, b, p, w) = post_inv ev raw e in
        let (valid, er) = encode_komms_payload_inv C ev raw w in
        (>>-eq-ok (check_ref ev.ref_bytes none) (sym (validate_event-post built ev b p) ∙ valid)).1

    -- The payload that `post` writes is read back as the event, with the scheme that the parser fills in, if
    -- the time and the nonce are u64, SHA-256 gives 32 bytes, the event's byte strings fit a CBOR length, the
    -- CBOR writer writes the smallest heads, and the reader reads back the value that was written.
    pub parse-post :
        Writes C
        → ((m : List ℕ) → length (sha256 m) ≡ 32)
        → IsMetaU64 (meta_of cmd)
        → (ev : ParsedKommsEvent C.Value) (raw : List ℕ) → Fits C (stored ev)
        → C.from_reader (C.into_writer (event_value C (stored ev))) ≡ ok (event_value C (stored ev))
        → post K sha256 H C cmd submit change_address ≡ ok (ev, raw)
        → parse_komms_payload C raw ≡ ok (stored ev)
    parse-post w digest u ev raw fits read e =
        let (built, b, p, written) = post_inv ev raw e in
        let (m, same) = patched built ev cmd submit change_address p in
        let shape =
          Ensures-ok (IsBuilt C cmd) (build_post_ev H cmd) b (build_post_ev-IsBuilt C H cmd) in
        parse_komms_payload-encode_komms_payload C w (stored ev)
          (subst (λ x. IsEncodable (stored x)) (sym same) (shape.encodable (sha256 m) (digest m) u))
          fits read raw
          (subst (λ x. encode_komms_payload C (stored x) ≡ encode_komms_payload C x) (sym same)
              (shape.encodes (sha256 m))
            ∙ written)
