-- ===== src/Protocol/RoundTrip/Written.antt =====
-- The bytes that the encoder writes are canonical CBOR: each value, the pairs, and the whole map.
use komms_cli.Base.{
  ℕ, suc, ◌+◌, List, [], ◌∷◌, ◌++◌, Bool, true, false, Option, none, some, ◌≡◌, ◌≤◌, refl, ap,
  arith, length, IsU64,
}
use mathlib.Core.Option
use komms_cli.Canonical.Grammar.{IsAbove, Entries, number, string, simple, IsCanonical}
use komms_cli.Protocol.RoundTrip.WellTyped.{Holds}
use komms_cli.Protocol.Event.{ParsedKommsEvent}
use komms_cli.Protocol.FieldMap.{FieldMap, Ascends, Below}
use komms_cli.Protocol.Ciborium.{Ciborium, Writes, written}
use komms_cli.Protocol.Encode.{pushed, keyed}
use komms_cli.Protocol.RoundTrip.Pushed.{Slots}

-- A string that fits a CBOR length.
abbrev pub FitsLength : List ℕ → Type 0
FitsLength b = IsU64 (length b)

module _ (C : Ciborium) where
  open C use {Value, integer, bytes, text, boolean, into_writer}

  -- The value is written as a canonical item of at most eight levels.
  abbrev pub WritesCanonical : Value → Type 0
  WritesCanonical value = IsCanonical 8 (into_writer value)

  abbrev pub AllWrite : FieldMap Value → Type 0
  AllWrite [] = Unit
  AllWrite ((k, value) ∷ m) = WritesCanonical value × AllWrite m

  abbrev pub SlotsWrite : Slots Value → Type 0
  SlotsWrite [] = Unit
  SlotsWrite ((k, o) ∷ slots) = Holds WritesCanonical o × SlotsWrite slots

  -- The variable-length fields fit, and the extension values are canonical.
  pub record Fits (ev : ParsedKommsEvent Value) : Type 0 where
    pub ref_bytes_fits : Holds FitsLength ev.ref_bytes
    pub mime_fits : Holds FitsLength ev.mime
    pub reaction_key_fits : Holds FitsLength ev.reaction_key
    pub payment_hint_fits : Holds FitsLength ev.payment_hint
    pub member_sealed_fits : Holds FitsLength ev.member_sealed
    pub enc_sid_fits : Holds FitsLength ev.enc_sid
    pub enc_cid_fits : Holds FitsLength ev.enc_cid
    pub enc_body_ref_fits : Holds FitsLength ev.enc_body_ref
    pub enc_parent_mid_fits : Holds FitsLength ev.enc_parent_mid
    pub enc_t_fits : Holds FitsLength ev.enc_t
    pub sealed_signer_fits : Holds FitsLength ev.sealed_signer
    pub target_fits : Holds FitsLength ev.target
    pub extension_writes : AllWrite ev.extension_fields

  pub AllWrite-pushed :
      (slots : Slots Value) (m : FieldMap Value)
      → SlotsWrite slots
      → AllWrite m
      → AllWrite (pushed slots ++ m)
  unfolding pushed
  AllWrite-pushed [] m s a = a
  AllWrite-pushed ((k, none) ∷ slots) m (h, s) a = AllWrite-pushed slots m s a
  AllWrite-pushed ((k, some v) ∷ slots) m (h, s) a = (h, AllWrite-pushed slots m s a)

  pub length-keyed :
      (k : ℕ) (m : FieldMap Value)
      → k ≤ 256
      → Ascends k m
      → Below 256 m
      → length (keyed C m) + k ≤ 256
  length-keyed k [] h a b = omega arith
  length-keyed k ((j, v) ∷ m) h (le, a) (lt, b) =
      omega (arith, length-keyed (suc j) m (omega arith) a b)

  module _ (w : Writes C) where
    pub Entries-keyed :
        (prev : Option ℕ) (k : ℕ) (m : FieldMap Value)
        → ((j : ℕ) → k ≤ j → IsAbove prev j)
        → Ascends k m
        → Below 256 m
        → AllWrite m
        → Entries (IsCanonical 8) prev (length (keyed C m)) (written C (keyed C m))
    Entries-keyed prev k [] above a b c = refl
    Entries-keyed prev k ((j, v) ∷ m) above (le, a) (lt, b) (cv, c) = (
      j,
      into_writer v,
      written C (keyed C m),
      ap (λ h. h ++ (into_writer v ++ written C (keyed C m))) (w.writes_integer j (omega arith)),
      omega arith,
      above j le,
      cv,
      Entries-keyed (some j) (suc j) m (λ i h. h) a b c,
    )

    pub integer-Writes :
        (o : Option ℕ) → Holds IsU64 o → Holds WritesCanonical (Option.map integer o)
    integer-Writes none h = tt
    integer-Writes (some n) h = number 0 n (omega arith) h (w.writes_integer n h)

    pub bytes-Writes :
        (o : Option (List ℕ)) → Holds FitsLength o → Holds WritesCanonical (Option.map bytes o)
    bytes-Writes none h = tt
    bytes-Writes (some b) h = string 2 b (omega arith) (omega arith) h (w.writes_bytes b h)

    pub text-Writes :
        (o : Option (List ℕ)) → Holds FitsLength o → Holds WritesCanonical (Option.map text o)
    text-Writes none h = tt
    text-Writes (some b) h = string 3 b (omega arith) (omega arith) h (w.writes_text b h)

    pub sized-Writes :
        (size : ℕ) (o : Option (List ℕ))
        → IsU64 size
        → Holds (λ b. length b ≡ size) o
        → Holds WritesCanonical (Option.map bytes o)
    sized-Writes size none s h = tt
    sized-Writes size (some b) s h = bytes-Writes (some b) (omega (arith, h, s))

    pub boolean-Writes : (b : Bool) → WritesCanonical (boolean b)
    boolean-Writes true = simple 0xF5 (omega arith) (omega arith) (w.writes_boolean true)
    boolean-Writes false = simple 0xF4 (omega arith) (omega arith) (w.writes_boolean false)
