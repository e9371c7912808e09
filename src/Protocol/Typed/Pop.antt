-- ===== src/Protocol/Typed/Pop.antt =====
-- protocol/src/lib.rs: what the `pop_*` helpers return, if they return.
use komms_cli.Base.{
  ℕ, ◌<◌, String, List, Bool, Option, none, some, Result, ok, err, ok_or, ◌≡◌, length,
  if◌then◌else◌, ltb, ◌==◌, IsU64, arith, ℤ, pos, negsuc, Bool-cases, inl, inr, Ensures,
}
use komms_cli.Protocol.RoundTrip.WellTyped.{Holds}
use komms_cli.Protocol.EventType.{as_u8, from_u8, as_u8-from_u8}
use komms_cli.Protocol.Event.{
  ParseError, expected_bytes32, expected_bytes16, expected_bytes, expected_uint, invalid_sig_length,
}
use komms_cli.Protocol.FieldMap.{FieldMap, remove}
use komms_cli.Protocol.FieldMap.Kept.{IsMap, IsMap-remove}
use komms_cli.Protocol.Ciborium.{Ciborium}
use komms_cli.Protocol.Parse.Pop.{
  and_then, convert, demand, event_type, try_uint, u64_bound, to_uint, to_sized, to_bytes, to_text,
  to_sig, to_bool, pop_uint_opt, pop_uint, pop_bytes32, pop_bytes16, pop_bytes, pop_text_opt,
  pop_sig, pop_enc,
}

-- A step that succeeds gives a value that satisfies `P`, and leaves a map.
abbrev pub Yields :
    {Value A : Type 0} → (A → Type 0) → Result ParseError (A × FieldMap Value) → Type 0
Yields P r = Ensures (λ q. P q.0 × IsMap q.1) r

-- A value of which nothing is said.
abbrev pub Any : {A : Type 0} → A → Type 0
Any a = Unit

module _ {Value : Type 0} where
  pub and_then-Ensures :
      {A B : Type 0} (P : A → Type 0) (Q : B → Type 0) (r : Result ParseError (A × FieldMap Value))
      (f : A → FieldMap Value → Result ParseError B)
      → Yields P r
      → ((a : A) (m : FieldMap Value) → P a → IsMap m → Ensures Q (f a m))
      → Ensures Q (and_then r f)
  and_then-Ensures P Q (ok (a, m)) f (p, i) k = k a m p i
  and_then-Ensures P Q (err e) f y k = tt

  -- The event type of a byte is decoded from its discriminant.
  pub event_type-Yields :
      (t_raw : ℕ) (m : FieldMap Value)
      → IsMap m
      → Yields (λ t. (as_u8 t < 256) × (from_u8 (as_u8 t) ≡ t)) (event_type t_raw m)
  unfolding event_type
  event_type-Yields t_raw m i = elim (Bool-cases (ltb t_raw 256)) [
    | inl e ↦ rw (e, as_u8-from_u8 t_raw) ((ground arith, refl_type), i)
    | inr e ↦ rw e tt
  ]
    where
      refl_type : from_u8 t_raw ≡ from_u8 t_raw
      refl_type = λ x. from_u8 t_raw

module _ (C : Ciborium) where
  open C use {Value}

  convert-Yields :
      {A : Type 0} (P : A → Type 0) (f : Value → Result ParseError A)
      → ((val : Value) → Ensures P (f val))
      → (q : Option Value × FieldMap Value) → IsMap q.1
      → Yields (Holds P) (convert C f q)
  convert-Yields P f h (none, m) i = (tt, i)
  convert-Yields P f h (some val, m) i = given (f val) (h val)
    where
      given :
          (r : Result ParseError _)
          → Ensures P r
          → Yields (Holds P) (elim r [ ok a ↦ ok (some a, m) | err e ↦ err e ])
      given (ok a) p = (p, i)
      given (err e) p = tt

  to_uint-Ensures : (name : String) (val : Value) → Ensures (λ n. IsU64 n) (to_uint C name val)
  unfolding to_uint
  to_uint-Ensures name val = given (C.as_integer val)
    where
      given :
          (o : Option ℤ)
          → Ensures
              (λ n. IsU64 n)
              (elim o [
                | none ↦ err (expected_uint name)
                | some i ↦ ok_or (try_uint u64_bound i) (expected_uint name)
              ])
      given none = tt
      given (some (pos n)) = elim (Bool-cases (ltb n u64_bound)) [
        | inl e ↦ rw e (ground arith)
        | inr e ↦ rw e tt
      ]
      given (some (negsuc n)) = tt

  -- Bytes that are taken only at their length.
  sized-Ensures :
      (size : ℕ) (e why : ParseError) (o : Option (List ℕ))
      → Ensures
          (λ b. length b ≡ size)
          (elim o [
            | none ↦ err e
            | some bytes ↦ if length bytes == size then ok bytes else err why
          ])
  sized-Ensures size e why none = tt
  sized-Ensures size e why (some b) = elim (Bool-cases (length b == size)) [
    | inl h ↦ rw h (ground arith)
    | inr h ↦ rw h tt
  ]

  to_sized-Ensures :
      (size : ℕ) (e : ParseError) (val : Value)
      → Ensures (λ b. length b ≡ size) (to_sized C size e val)
  unfolding to_sized
  to_sized-Ensures size e val = sized-Ensures size e e (C.into_bytes val)

  to_sig-Ensures : (val : Value) → Ensures (λ b. length b ≡ 64) (to_sig C val)
  unfolding to_sig
  to_sig-Ensures val = sized-Ensures 64 (expected_bytes "sig") invalid_sig_length (C.into_bytes val)

  Ensures-Any : {A : Type 0} (r : Result ParseError A) → Ensures Any r
  Ensures-Any (ok a) = tt
  Ensures-Any (err e) = tt

  -- Each helper, on a map.
  module _ (k : ℕ) (name : String) (m : FieldMap Value) (i : IsMap m) where
    pub pop_uint_opt-Yields : Yields (Holds (λ n. IsU64 n)) (pop_uint_opt C k name m)
    unfolding pop_uint_opt
    pop_uint_opt-Yields =
        convert-Yields (λ n. IsU64 n) (to_uint C name) (to_uint-Ensures name) (remove k m)
          (IsMap-remove k m i)

    pub pop_uint-Yields : Yields (λ n. IsU64 n) (pop_uint C k name m)
    unfolding pop_uint
    pop_uint-Yields =
        and_then-Ensures (Holds (λ n. IsU64 n)) (λ q. IsU64 q.0 × IsMap q.1)
          (pop_uint_opt C k name m) (demand C name) pop_uint_opt-Yields demanded
      where
        demanded :
            (o : Option ℕ) (m' : FieldMap Value)
            → Holds (λ n. IsU64 n) o
            → IsMap m'
            → Yields (λ n. IsU64 n) (demand C name o m')
        demanded none m' h j = tt
        demanded (some n) m' h j = (h, j)

    pub pop_bytes32-Yields : Yields (Holds (λ b. length b ≡ 32)) (pop_bytes32 C k name m)
    unfolding pop_bytes32
    pop_bytes32-Yields =
        convert-Yields (λ b. length b ≡ 32) (to_sized C 32 (expected_bytes32 name))
          (to_sized-Ensures 32 (expected_bytes32 name)) (remove k m) (IsMap-remove k m i)

    pub pop_bytes16-Yields : Yields (Holds (λ b. length b ≡ 16)) (pop_bytes16 C k name m)
    unfolding pop_bytes16
    pop_bytes16-Yields =
        convert-Yields (λ b. length b ≡ 16) (to_sized C 16 (expected_bytes16 name))
          (to_sized-Ensures 16 (expected_bytes16 name)) (remove k m) (IsMap-remove k m i)

    pub pop_bytes-Yields : Yields (Holds Any) (pop_bytes C k name m)
    unfolding pop_bytes
    pop_bytes-Yields =
        convert-Yields Any (to_bytes C name) (λ val. Ensures-Any (to_bytes C name val)) (remove k m)
          (IsMap-remove k m i)

    pub pop_text_opt-Yields : Yields (Holds Any) (pop_text_opt C k name m)
    unfolding pop_text_opt
    pop_text_opt-Yields =
        convert-Yields Any (to_text C name) (λ val. Ensures-Any (to_text C name val)) (remove k m)
          (IsMap-remove k m i)

  module _ (m : FieldMap Value) (i : IsMap m) where
    pub pop_sig-Yields : Yields (Holds (λ b. length b ≡ 64)) (pop_sig C m)
    unfolding pop_sig
    pop_sig-Yields =
        convert-Yields (λ b. length b ≡ 64) (to_sig C) to_sig-Ensures (remove 11 m)
          (IsMap-remove 11 m i)

    pub pop_enc-Yields : Yields Any (pop_enc C m)
    unfolding pop_enc
    pop_enc-Yields =
        and_then-Ensures (Holds Any) (λ q. Any q.0 × IsMap q.1) (convert C (to_bool C) (remove 8 m))
          (demand C "enc")
          (convert-Yields Any (to_bool C) (λ val. Ensures-Any (to_bool C val)) (remove 8 m)
            (IsMap-remove 8 m i))
          demanded
      where
        demanded :
            (o : Option Bool) (m' : FieldMap Value)
            → Holds Any o
            → IsMap m'
            → Yields Any (demand C "enc" o m')
        demanded none m' h j = tt
        demanded (some b) m' h j = (tt, j)
