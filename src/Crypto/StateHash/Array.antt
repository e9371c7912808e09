-- ===== src/Crypto/StateHash/Array.antt =====
-- The hashed array of events is canonical CBOR.
use komms_cli.Base.{
  lex_le, suc, ◌≡◌, refl, ap, ◌∙◌, List, [], ◌∷◌, ◌++◌, length, IsU64, All, Bool-cases, inl, inr,
  ok,
}
use komms_cli.Canonical.Grammar.{Items, IsCanonical, array}
use komms_cli.Canonical.Walk.{validate_canonical}
use komms_cli.Canonical.Complete.{validate_canonical-IsCanonical}
use komms_cli.Crypto.StateHash.Defs.{ProjectedEvent, bodies, event_array, sort_by_tx_id, insert}
use komms_cli.Crypto.StateHash.Header.{encode_cbor_uint_header-head}

-- Each projection is a canonical item that an array may hold.
abbrev pub IsItem : ProjectedEvent → Type 0
IsItem e = IsCanonical 8 e.canonical_cbor

All-insert :
    (e : ProjectedEvent) (l : List ProjectedEvent)
    → IsItem e
    → All IsItem l
    → All IsItem (insert e l)
unfolding insert
All-insert e [] h k = (h, tt)
All-insert e (f ∷ l) h (kf, k) = elim (Bool-cases (lex_le e.tx_id f.tx_id)) [
  | inl c ↦ rw c (h, (kf, k))
  | inr c ↦ rw c (kf, All-insert e l h k)
]

All-sort : (l : List ProjectedEvent) → All IsItem l → All IsItem (sort_by_tx_id l)
unfolding sort_by_tx_id
All-sort [] h = tt
All-sort (e ∷ l) (he, h) = All-insert e (sort_by_tx_id l) he (All-sort l h)

length-insert :
    (e : ProjectedEvent) (l : List ProjectedEvent) → length (insert e l) ≡ suc (length l)
unfolding insert
length-insert e [] = refl
length-insert e (f ∷ l) = elim (Bool-cases (lex_le e.tx_id f.tx_id)) [
  | inl c ↦ rw c refl
  | inr c ↦ rw c (ap suc (length-insert e l))
]

length-sort : (l : List ProjectedEvent) → length (sort_by_tx_id l) ≡ length l
unfolding sort_by_tx_id
length-sort [] = refl
length-sort (e ∷ l) = length-insert e (sort_by_tx_id l) ∙ ap suc (length-sort l)

Items-bodies :
    (l : List ProjectedEvent) → All IsItem l → Items (IsCanonical 8) (length l) (bodies l)
unfolding bodies
Items-bodies [] h = refl
Items-bodies (e ∷ l) (he, h) = (e.canonical_cbor, bodies l, refl, he, Items-bodies l h)

-- The array of events that the state hash is over is itself canonical CBOR, if each projection is a
-- canonical item of at most eight levels and their number fits a u64.
pub event_array-canonical :
    (events : List ProjectedEvent)
    → IsU64 (length events)
    → All IsItem events
    → validate_canonical (event_array events) ≡ ok tt
unfolding event_array
event_array-canonical events hn h =
    let sorted = sort_by_tx_id events in
    let items : Items (IsCanonical 8) (length events) (bodies sorted) =
      rw (length-sort events) at (Items-bodies sorted (All-sort events h)) in
    validate_canonical-IsCanonical _ (
      array (length events) (bodies sorted) hn items
        (ap (λ x. x ++ bodies sorted) (encode_cbor_uint_header-head (length events) hn)))
