-- ===== src/Cli/IndexScan/Laws.antt =====
-- src/index_scan.rs, src/lib.rs: which rows `read index` prints.
use komms_cli.Base.{
  ℕ, List, [], ◌∷◌, Bool, true, false, not, Option, none, some, ok, ◌≡◌, ◌≤◌, ◌↔◌, refl, ap, map,
  length, ltb, ◌==◌, bytes_eq_sound, bytes_eq_refl, Bool-cases, inl, inr, >>=-eq-ok, >>-eq-ok,
  ok_or, guard, arith, subst,
}
use komms_cli.Hex.{FasterHex}
use komms_cli.Cli.Output.{SerdeJson}
use komms_cli.Cli.IndexScan.{
  KommsEventRecord, KommsEventRecordV1, Filter, is_bytes, skips, is_skipped, select, row,
  hash_filter, load_komms_events, decode_record, read_index, fjall_iter, bad_key_length,
}

-- What the arguments ask of a record: each one that is given.
pub record IsSelected (f : Filter) (rec : KommsEventRecord) : Type 0 where
  pub of_type : (t : ℕ) → f.event_type ≡ some t → rec.event_type ≡ t
  pub of_sid : (s : List ℕ) → f.sid ≡ some s → rec.sid ≡ some s
  pub of_cid : (c : List ℕ) → f.cid ≡ some c → rec.cid ≡ some c
  pub from_daa : (lo : ℕ) → f.daa_min ≡ some lo → lo ≤ rec.containing_daa
  pub to_daa : (hi : ℕ) → f.daa_max ≡ some hi → rec.containing_daa ≤ hi

is_bytes_iff : (o : Option (List ℕ)) (s : List ℕ) → (is_bytes o s ≡ true) ↔ (o ≡ some s)
is_bytes_iff none s = (λ h. cc, λ h. cc)
is_bytes_iff (some b) s =
    (λ h. ap some (bytes_eq_sound b s h), λ h. let same : b ≡ s = cc h in rw same (bytes_eq_refl s))

-- A test that is not skipped.
skips_iff :
    {A : Type 0} (o : Option A) (test : A → Bool)
    → (skips o test ≡ false) ↔ ((a : A) → o ≡ some a → test a ≡ false)
skips_iff none test = (λ h a e. cc, λ h. refl)
skips_iff (some b) test = (λ h a e. let same : b ≡ a = cc e in rw (← same) h, λ h. h b refl)

is_skipped_sound :
    (f : Filter) (rec : KommsEventRecord) → is_skipped f rec ≡ false → IsSelected f rec
unfolding is_skipped
is_skipped_sound f rec e = record {
  of_type = λ t h. ground (arith, h);
  of_sid = λ s h. (is_bytes_iff rec.sid s).0 (ground (arith, h));
  of_cid = λ c h. (is_bytes_iff rec.cid c).0 (ground (arith, h));
  from_daa = λ lo h. ground (arith, h);
  to_daa = λ hi h. ground (arith, h);
}

is_skipped_complete :
    (f : Filter) (rec : KommsEventRecord) → IsSelected f rec → is_skipped f rec ≡ false
unfolding is_skipped
is_skipped_complete f rec s =
    rw
      (
        (skips_iff f.event_type (λ t. not (rec.event_type == t))).1
            (λ t h. ground (arith, s.of_type t h)),
        (skips_iff f.sid (λ x. not (is_bytes rec.sid x))).1
            (λ x h. rw ((is_bytes_iff rec.sid x).1 (s.of_sid x h)) refl),
        (skips_iff f.cid (λ x. not (is_bytes rec.cid x))).1
            (λ x h. rw ((is_bytes_iff rec.cid x).1 (s.of_cid x h)) refl),
        (skips_iff f.daa_min (λ lo. ltb rec.containing_daa lo)).1
            (λ lo h. ground (arith, s.from_daa lo h)),
      )
      ((skips_iff f.daa_max (λ hi. ltb hi rec.containing_daa)).1
        (λ hi h. ground (arith, s.to_daa hi h)))

-- The entries that the arguments select, in their order and each as often as it stands there, and no other.
pub data Selects (f : Filter)
    : List (List ℕ × KommsEventRecord) → List (List ℕ × KommsEventRecord) → Type 0 where
  nothing : Selects f [] []
  keep :
      (tx_id : List ℕ) (rec : KommsEventRecord) {xs ys : List (List ℕ × KommsEventRecord)}
      → IsSelected f rec
      → Selects f xs ys
      → Selects f ((tx_id, rec) ∷ xs) ((tx_id, rec) ∷ ys)
  skip :
      (tx_id : List ℕ) (rec : KommsEventRecord) {xs ys : List (List ℕ × KommsEventRecord)}
      → (IsSelected f rec → ⊥)
      → Selects f xs ys
      → Selects f ((tx_id, rec) ∷ xs) ys

select-Selects :
    (f : Filter) (entries : List (List ℕ × KommsEventRecord)) → Selects f entries (select f entries)
unfolding select
select-Selects f [] = nothing
select-Selects f ((tx_id, rec) ∷ entries) =
    let rest = select-Selects f entries in
    elim (Bool-cases (is_skipped f rec)) [
      | inl h ↦ rw h (skip tx_id rec (λ s. cc (h, is_skipped_complete f rec s)) rest)
      | inr h ↦ rw h (keep tx_id rec (is_skipped_sound f rec h) rest)
    ]

module _ (S : SerdeJson) (H : FasterHex) (from_bytes : List ℕ → Option KommsEventRecord)
    (from_bytes_v1 : List ℕ → Option KommsEventRecordV1) where
  -- An entry of an item: its key is 32 bytes, and its value decodes to the record.
  abbrev pub IsEntry : Option (List ℕ × List ℕ) → List ℕ × KommsEventRecord → Type 0
  IsEntry item (tx_id, rec) =
      (value : List ℕ) × (item ≡ some (tx_id, value))
      × (length tx_id ≡ 32)
      × (decode_record from_bytes from_bytes_v1 value ≡ ok rec)

  -- Every item is one entry, in order.
  abbrev pub AllEntries :
      List (Option (List ℕ × List ℕ)) → List (List ℕ × KommsEventRecord) → Type 0
  AllEntries [] [] = Unit
  AllEntries [] (entry ∷ entries) = ⊥
  AllEntries (item ∷ items) [] = ⊥
  AllEntries (item ∷ items) (entry ∷ entries) = IsEntry item entry × AllEntries items entries

  load-AllEntries :
      (items : List (Option (List ℕ × List ℕ))) (entries : List (List ℕ × KommsEventRecord))
      → load_komms_events from_bytes from_bytes_v1 items ≡ ok entries
      → AllEntries items entries
  unfolding load_komms_events
  load-AllEntries [] [] e = tt
  load-AllEntries [] (entry ∷ entries) e = cc
  load-AllEntries (item ∷ items) entries e =
      let ((key, value), e₁, r₁) = >>=-eq-ok (ok_or item fjall_iter) _ e in
      let (e₂, r₂) = >>-eq-ok (guard (length key == 32) (bad_key_length (length key))) r₁ in
      let (rec, e₃, r₃) = >>=-eq-ok (decode_record from_bytes from_bytes_v1 value) _ r₂ in
      let (out, e₄, r₄) = >>=-eq-ok (load_komms_events from_bytes from_bytes_v1 items) _ r₃ in
      let same : (key, rec) ∷ out ≡ entries = cc r₄ in
      subst (AllEntries (item ∷ items)) same
        ((value, ground arith, ground arith, e₃), load-AllEntries items out e₄)

  -- The rows that `read index` prints are those of the entries that the arguments select, in the order of
  -- the database; every item of the database was read, with a key of 32 bytes.
  pub read_index_sound :
      (items : List (Option (List ℕ × List ℕ))) (event_type : Option ℕ)
      (sid_hex cid_hex : Option (List ℕ)) (daa_min daa_max : Option ℕ) (rows : List S.Json)
      → read_index S H from_bytes from_bytes_v1 items event_type sid_hex cid_hex daa_min daa_max
        ≡ ok rows
      → (entries kept : List (List ℕ × KommsEventRecord)) × (f : Filter) × AllEntries items entries
        × (hash_filter S H sid_hex ≡ ok f.sid)
        × (hash_filter S H cid_hex ≡ ok f.cid)
        × (f.event_type ≡ event_type)
        × (f.daa_min ≡ daa_min)
        × (f.daa_max ≡ daa_max)
        × Selects f entries kept
        × (rows ≡ map (row S H) kept)
  unfolding read_index
  read_index_sound items event_type sid_hex cid_hex daa_min daa_max rows e =
      let (entries, e₁, r₁) = >>=-eq-ok (load_komms_events from_bytes from_bytes_v1 items) _ e in
      let (sid_f, e₂, r₂) = >>=-eq-ok (hash_filter S H sid_hex) _ r₁ in
      let (cid_f, e₃, r₃) = >>=-eq-ok (hash_filter S H cid_hex) _ r₂ in
      let f : Filter = record {
        event_type = event_type;
        sid = sid_f;
        cid = cid_f;
        daa_min = daa_min;
        daa_max = daa_max;
      } in
      (
        entries,
        select f entries,
        f,
        load-AllEntries items entries e₁,
        e₂,
        e₃,
        refl,
        refl,
        refl,
        select-Selects f entries,
        cc r₃,
      )
