-- ===== src/Protocol/Parse/Order.antt =====
-- protocol/src/lib.rs: `parse_cbor_map` and the order of the entries of a map.
use komms_cli.Base.{
  ℕ, List, [], ◌∷◌, Option, none, some, Result, ok, err, ◌≡◌, refl, sym, subst, ◌∙◌, ap, arith,
}
use mathlib.Core.List.{Permᴰ}
use komms_cli.Protocol.Event.{ParsedKommsEvent, ParseError, duplicate_key}
use komms_cli.Protocol.FieldMap.{FieldMap, insert}
use komms_cli.Protocol.FieldMap.Swap.{insert-Swaps}
use komms_cli.Protocol.Ciborium.{Ciborium}
use komms_cli.Protocol.Parse.Pop.{key_to_u8}
use komms_cli.Protocol.Parse.Stages.{collect, parse_fields, parse_cbor_map}

module _ (C : Ciborium) where
  open C use {Value}

  -- What it takes that an entry goes into the map, and then the others do.
  record Collects (entry : Value × Value) (entries : List (Value × Value)) (m r : FieldMap Value)
      : Type 0 where
    key : ℕ
    key_lem : key_to_u8 C entry.0 ≡ ok key
    is_new : (insert key entry.1 m).0 ≡ none
    others : collect C entries (insert key entry.1 m).1 ≡ ok r

  collect-Collects :
      (entry : Value × Value) (entries : List (Value × Value)) (m r : FieldMap Value)
      → collect C (entry ∷ entries) m ≡ ok r
      → Collects entry entries m r
  unfolding collect
  collect-Collects (k, val) entries m r e = given (key_to_u8 C k) refl e
    where
      inserted :
          (key : ℕ) (old : Option Value) (m' : FieldMap Value)
          → (elim old [ none ↦ collect C entries m' | some previous ↦ err (duplicate_key key) ])
            ≡ ok r
          → (old ≡ none) × (collect C entries m' ≡ ok r)
      inserted key none m' h = (refl, h)
      inserted key (some previous) m' h = cc h

      given :
          (q : Result ParseError ℕ)
          → key_to_u8 C k ≡ q
          → (elim q [
            | err why ↦ err why
            | ok key ↦
                let (old, m') = insert key val m in
                elim old [ none ↦ collect C entries m' | some previous ↦ err (duplicate_key key) ]
          ])
            ≡ ok r
          → Collects (k, val) entries m r
      given (ok key) q h =
          let both = inserted key (insert key val m).0 (insert key val m).1 h in
          record { key = key; key_lem = q; is_new = both.0; others = both.1 }
      given (err why) q h = cc h

  collect-entry :
      (entry : Value × Value) (entries : List (Value × Value)) (m r : FieldMap Value) (key : ℕ)
      → key_to_u8 C entry.0 ≡ ok key
      → (insert key entry.1 m).0 ≡ none
      → collect C entries (insert key entry.1 m).1 ≡ ok r
      → collect C (entry ∷ entries) m ≡ ok r
  unfolding collect
  collect-entry (k, val) entries m r key q new h = ground (arith, q, new, h)

  -- The two entries in front change places.
  collect-swap :
      (a b : Value × Value) (entries : List (Value × Value)) (m r : FieldMap Value)
      → collect C (a ∷ b ∷ entries) m ≡ ok r
      → collect C (b ∷ a ∷ entries) m ≡ ok r
  collect-swap a b entries m r e =
      let first = collect-Collects a (b ∷ entries) m r e in
      let second = collect-Collects b entries (insert first.key a.1 m).1 r first.others in
      let s = insert-Swaps first.key second.key a.1 b.1 m first.is_new second.is_new in
      collect-entry b (a ∷ entries) m r second.key second.key_lem s.new_first (
        collect-entry a entries (insert second.key b.1 m).1 r first.key first.key_lem s.new_then
          (subst (λ m'. collect C entries m' ≡ ok r) s.same_map second.others))

  collect-Perm :
      (entries other : List (Value × Value))
      → Permᴰ entries other
      → (m r : FieldMap Value) → collect C entries m ≡ ok r
      → collect C other m ≡ ok r
  collect-Perm _ _ Permᴰ.nil m r e = e
  collect-Perm _ _ (Permᴰ.cons {a = a} {b = b} {l₁ = l₁} {l₂ = l₂} same d) m r e =
      let c = collect-Collects a l₁ m r e in
      subst (λ x. collect C (x ∷ l₂) m ≡ ok r) same
        (collect-entry a l₂ m r c.key c.key_lem c.is_new
          (collect-Perm l₁ l₂ d (insert c.key a.1 m).1 r c.others))
  collect-Perm _ _ (Permᴰ.swap {a = a} {b = b} {a' = a'} {b' = b'} {l = l} e₁ e₂) m r e =
      subst (λ x. collect C (a' ∷ x ∷ l) m ≡ ok r) e₁
        (subst (λ x. collect C (x ∷ a ∷ l) m ≡ ok r) e₂ (collect-swap a b l m r e))
  collect-Perm _ _ (Permᴰ.trans {l₁ = l₁} {l₂ = l₂} {l₃ = l₃} p q) m r e =
      collect-Perm l₂ l₃ q m r (collect-Perm l₁ l₂ p m r e)

  abbrev parsed_from :
      Result ParseError (FieldMap Value) → Result ParseError (ParsedKommsEvent Value)
  parsed_from collected = elim collected [ ok fields ↦ parse_fields C fields | err why ↦ err why ]

  parse_cbor_map-entries :
      (bytes : List ℕ) (value : Value) (entries : List (Value × Value))
      → C.from_reader bytes ≡ ok value
      → C.as_map value ≡ some entries
      → parse_cbor_map C bytes ≡ parsed_from (collect C entries [])
  unfolding parse_cbor_map
  parse_cbor_map-entries bytes value entries r v = ground (arith, r, v)

  parsed_from_ok :
      (collected : Result ParseError (FieldMap Value)) (ev : ParsedKommsEvent Value)
      → parsed_from collected ≡ ok ev
      → (m : FieldMap Value) × (collected ≡ ok m)
  parsed_from_ok (ok m) ev e = (m, refl)
  parsed_from_ok (err why) ev e = cc e

  -- The order in which a CBOR map lists its entries does not matter to the parser, which leaves it to the
  -- canonical walk: if two byte strings are read as maps whose entries are a permutation of each other, what is
  -- parsed of the one is parsed of the other.
  pub parse_cbor_map-Perm :
      (bytes other : List ℕ) (value moved : Value) (entries moved_entries : List (Value × Value))
      (ev : ParsedKommsEvent Value)
      → C.from_reader bytes ≡ ok value
      → C.from_reader other ≡ ok moved
      → C.as_map value ≡ some entries
      → C.as_map moved ≡ some moved_entries
      → Permᴰ entries moved_entries
      → parse_cbor_map C bytes ≡ ok ev
      → parse_cbor_map C other ≡ ok ev
  parse_cbor_map-Perm bytes other value moved entries moved_entries ev r r' v v' p e =
      let first = sym (parse_cbor_map-entries bytes value entries r v) ∙ e in
      let (m, c) = parsed_from_ok (collect C entries []) ev first in
      let c' = collect-Perm entries moved_entries p [] m c in
      parse_cbor_map-entries other moved moved_entries r' v' ∙ ap parsed_from (c' ∙ sym c) ∙ first
