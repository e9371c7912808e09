-- ===== src/Protocol/Payload/Laws.antt =====
-- What the two entry points accept, and how they agree.
use komms_cli.Base.{
  ℕ, List, [], ◌∷◌, ◌++◌, false, not, some, Result, ok, err, ◌≡◌, ◌≢◌, ◌≤◌, ◌↔◌, >>=-eq-ok,
  >>-eq-ok, ok_or, map_err, guard, subst, refl, ap, arith, ltb, All, IsByte, All-append_right,
  Bool-cases, inl, inr,
}
use komms_cli.Canonical.Walk.{validate_canonical}
use komms_cli.Canonical.Grammar.{IsCanonical}
use komms_cli.Canonical.Sound.{IsCanonical-validate_canonical}
use komms_cli.Protocol.Event.{
  ValidationError, ParsedKommsEvent, max_known_version, komms_payload_prefix,
}
use komms_cli.Protocol.Ciborium.{Ciborium}
use komms_cli.Protocol.Parse.Stages.{parse_cbor_map}
use komms_cli.Protocol.Validate.Defs.{validate_event}
use komms_cli.Protocol.Payload.{
  known, future, strip_komms_envelope, read_payload, parse_komms_payload,
  parse_komms_payload_with_future, classify, missing_prefix, canonical, parse, unsupported_version,
  validation,
}

strip_komms_envelope_inv :
    (raw cbor : List ℕ) → strip_komms_envelope raw ≡ some cbor → raw ≡ komms_payload_prefix ++ cbor
unfolding strip_komms_envelope
strip_komms_envelope_inv [] cbor e = cc
strip_komms_envelope_inv (a ∷ []) cbor e = cc
strip_komms_envelope_inv (a ∷ b ∷ []) cbor e = cc
strip_komms_envelope_inv (a ∷ b ∷ c ∷ []) cbor e = cc
strip_komms_envelope_inv (a ∷ b ∷ c ∷ d ∷ xs) cbor e = ground arith

module _ (C : Ciborium) where
  open C use {Value}

  -- What the shared first steps establish.
  pub record IsRead (raw cbor : List ℕ) (ev : ParsedKommsEvent Value) : Type 0 where
    pub prefixed : raw ≡ komms_payload_prefix ++ cbor
    pub walked : validate_canonical cbor ≡ ok tt
    pub parsed : parse_cbor_map C cbor ≡ ok ev

  pub read_payload_inv :
      (raw cbor : List ℕ) (ev : ParsedKommsEvent Value)
      → read_payload C raw ≡ ok (cbor, ev)
      → IsRead raw cbor ev
  unfolding read_payload
  read_payload_inv raw cbor ev e =
      let (c, e₁, r₁) = >>=-eq-ok (ok_or (strip_komms_envelope raw) missing_prefix) _ e in
      let (e₂, r₂) = >>-eq-ok (map_err canonical (validate_canonical c)) r₁ in
      let (v, e₃, r₃) = >>=-eq-ok (map_err parse (parse_cbor_map C c)) _ r₂ in
      let same : ◌≡◌ {A = List ℕ × ParsedKommsEvent Value} (c, v) (cbor, ev) = cc r₃ in
      record {
        prefixed =
            strip_komms_envelope_inv raw cbor
              (subst (λ x. strip_komms_envelope raw ≡ some x) (ap (λ q. q.0) same) (ground arith));
        walked = subst (λ x. validate_canonical x ≡ ok tt) (ap (λ q. q.0) same) (ground arith);
        parsed = subst (λ q. parse_cbor_map C q.0 ≡ ok q.1) same (ground arith);
      }

  -- What the strict entry point accepts, step by step.
  pub record IsAccepted (raw : List ℕ) (ev : ParsedKommsEvent Value) : Type 0 where
    pub cbor : List ℕ
    pub read_lem : read_payload C raw ≡ ok (cbor, ev)
    pub version_lem : ltb max_known_version ev.v ≡ false
    pub valid_lem : validate_event ev ≡ ok tt

  pub parse_komms_payload_inv :
      (raw : List ℕ) (ev : ParsedKommsEvent Value)
      → parse_komms_payload C raw ≡ ok ev
      → IsAccepted raw ev
  unfolding parse_komms_payload
  parse_komms_payload_inv raw ev e =
      let ((c, read), e₁, r₁) = >>=-eq-ok (read_payload C raw) _ e in
      let (e₂, r₂) =
        >>-eq-ok (guard (not (ltb max_known_version read.v)) (unsupported_version read.v)) r₁ in
      let (e₃, r₃) = >>-eq-ok (map_err validation (validate_event read)) r₂ in
      let same : read ≡ ev = cc r₃ in
      record {
        cbor = c;
        read_lem = subst (λ x. read_payload C raw ≡ ok (c, x)) same e₁;
        version_lem =
            subst (λ (x : ParsedKommsEvent Value). ltb max_known_version x.v ≡ false) same
              (ground arith);
        valid_lem = subst (λ x. validate_event x ≡ ok tt) same (ground arith);
      }

  -- A payload that the strict entry point accepts is the four prefix bytes and one canonical CBOR item, of
  -- which the event is the parse; the event is valid and of version 0 or 1.
  pub parse_komms_payload_sound :
      (raw : List ℕ) (ev : ParsedKommsEvent Value)
      → All IsByte raw
      → parse_komms_payload C raw ≡ ok ev
      → (cbor : List ℕ) × (raw ≡ komms_payload_prefix ++ cbor)
        × IsCanonical 9 cbor
        × (parse_cbor_map C cbor ≡ ok ev)
        × (validate_event ev ≡ ok tt)
        × (ev.v ≤ 1)
  parse_komms_payload_sound raw ev hb e =
      let a = parse_komms_payload_inv raw ev e in
      let r = read_payload_inv raw a.cbor ev a.read_lem in
      let cbor_bytes : All IsByte a.cbor =
        All-append_right IsByte komms_payload_prefix a.cbor (subst (All IsByte) r.prefixed hb) in
      (
        a.cbor,
        r.prefixed,
        IsCanonical-validate_canonical a.cbor cbor_bytes r.walked,
        r.parsed,
        a.valid_lem,
        ground (arith, a.version_lem),
      )

  parse_of_known :
      (raw : List ℕ) (ev : ParsedKommsEvent Value)
      → parse_komms_payload C raw ≡ ok ev
      → parse_komms_payload_with_future C raw ≡ ok (known ev)
  unfolding parse_komms_payload_with_future classify
  parse_of_known raw ev e =
      let a = parse_komms_payload_inv raw ev e in rw (a.read_lem, a.version_lem, a.valid_lem) refl

  classify_known :
      (cbor : List ℕ) (read ev : ParsedKommsEvent Value) (r : Result ValidationError (Unit {0}))
      → classify C cbor read r ≡ ok (known ev)
      → (r ≡ ok tt) × (read ≡ ev)
  unfolding classify
  classify_known cbor read ev (ok u) e = (refl, cc e)
  classify_known cbor read ev (err x) e = ground arith

  classify_future :
      (cbor : List ℕ) (read : ParsedKommsEvent Value) (v : ℕ) (bytes : List ℕ)
      (r : Result ValidationError (Unit {0}))
      → classify C cbor read r ≢ ok (future v bytes)
  unfolding classify
  classify_future cbor read v bytes (ok u) e = cc e
  classify_future cbor read v bytes (err x) e = ground arith

  known_of_parse :
      (raw : List ℕ) (ev : ParsedKommsEvent Value)
      → parse_komms_payload_with_future C raw ≡ ok (known ev)
      → parse_komms_payload C raw ≡ ok ev
  unfolding parse_komms_payload parse_komms_payload_with_future
  known_of_parse raw ev e =
      let ((c, read), e₁, r₁) = >>=-eq-ok (read_payload C raw) _ e in
      elim (Bool-cases (ltb max_known_version read.v)) [
        | inl h ↦ ground (arith, h)
        | inr h ↦
            let classified : classify C c read (validate_event read) ≡ ok (known ev) = rw h at r₁ in
            let (valid, same) = classify_known c read ev (validate_event read) classified in
            rw (e₁, h, valid) (ap ok same)
      ]

  -- The tolerant entry point calls a payload known exactly when the strict one accepts it.
  pub parse_komms_payload-known :
      (raw : List ℕ) (ev : ParsedKommsEvent Value)
      → (parse_komms_payload C raw ≡ ok ev)
        ↔ (parse_komms_payload_with_future C raw ≡ ok (known ev))
  parse_komms_payload-known raw ev = (parse_of_known raw ev, known_of_parse raw ev)

  -- What the tolerant entry point hands on as a payload of a future version has a version above 1, and the
  -- strict one refuses it with that version.
  pub parse_komms_payload-future :
      (raw : List ℕ) (v : ℕ) (cbor : List ℕ)
      → parse_komms_payload_with_future C raw ≡ ok (future v cbor)
      → (2 ≤ v) × (parse_komms_payload C raw ≡ err (unsupported_version v))
  unfolding parse_komms_payload parse_komms_payload_with_future
  parse_komms_payload-future raw v cbor e =
      let ((c, read), e₁, r₁) = >>=-eq-ok (read_payload C raw) _ e in
      elim (Bool-cases (ltb max_known_version read.v)) [
        | inl h ↦
            let same : read.v ≡ v = ground (arith, h) in (ground (arith, h), rw (e₁, h, same) refl)
        | inr h ↦
            let classified : classify C c read (validate_event read) ≡ ok (future v cbor) =
              rw h at r₁ in
            absurd (classify_future c read v cbor (validate_event read) classified)
      ]
