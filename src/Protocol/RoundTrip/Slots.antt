-- ===== src/Protocol/RoundTrip/Slots.antt =====
-- The pairs that the encoder pushes, read back by the helpers of the parser.
use komms_cli.Base.{
  ℕ, suc, List, [], ◌∷◌, ◌++◌, Bool, Option, none, some, Result, ok, ◌≡◌, ◌<◌, refl, ap, sym, arith,
  append_assoc, append-nil, length, IsU64, String, ◌∙◌,
}
use mathlib.Core.Option
use komms_cli.Protocol.RoundTrip.WellTyped.{Holds}
use komms_cli.Protocol.Event.{ParseError, expected_bytes32, expected_bytes16}
use komms_cli.Protocol.FieldMap.{
  FieldMap, Above, Ascends, Below, Below-weaken, Below-append, insert-Below,
}
use komms_cli.Protocol.Ciborium.{Ciborium}
use komms_cli.Protocol.Parse.Pop.{
  convert, to_uint, to_sized, to_bytes, to_text, to_sig, to_bool, key_to_u8, pop_uint, pop_uint_opt,
  pop_bytes32, pop_bytes16, pop_bytes, pop_text_opt, pop_sig, pop_enc,
}
use komms_cli.Protocol.Parse.Stages.{collect}
use komms_cli.Protocol.Encode.{pushed, keyed}
use komms_cli.Protocol.RoundTrip.Pushed.{Slots, Lacks, remove-pushed}

module _ (C : Ciborium) where
  open C use {
    Value, integer, bytes, text, boolean, as_integer, as_integer-integer, into_bytes-bytes,
    into_text-text, as_bool-boolean,
  }

  Holds-Unit : {A : Type 0} (o : Option A) → Holds {A = A} (λ a. Unit {0}) o
  Holds-Unit none = tt
  Holds-Unit (some a) = tt

  -- The conversion undoes the injection that built the value.
  convert-map :
      {A : Type 0} (f : Value → Result ParseError A) (inj : A → Value) (P : A → Type 0)
      → ((a : A) → P a → f (inj a) ≡ ok a)
      → (o : Option A) (m : FieldMap Value) → Holds P o
      → convert C f (Option.map inj o, m) ≡ ok (o, m)
  convert-map f inj P undo none m h = refl
  convert-map f inj P undo (some a) m h = rw (undo a h)

  to_uint-integer : (name : String) (n : ℕ) → IsU64 n → to_uint C name (integer n) ≡ ok n
  unfolding to_uint
  to_uint-integer name n h = ground (arith, as_integer-integer n)

  to_sized-bytes :
      (size : ℕ) (e : ParseError) (b : List ℕ)
      → length b ≡ size
      → to_sized C size e (bytes b) ≡ ok b
  unfolding to_sized
  to_sized-bytes size e b h = ground (arith, into_bytes-bytes b)

  to_sig-bytes : (b : List ℕ) → length b ≡ 64 → to_sig C (bytes b) ≡ ok b
  unfolding to_sig
  to_sig-bytes b h = ground (arith, into_bytes-bytes b)

  to_bytes-bytes : (name : String) (b : List ℕ) → to_bytes C name (bytes b) ≡ ok b
  unfolding to_bytes
  to_bytes-bytes name b = rw (into_bytes-bytes b)

  to_text-text : (name : String) (b : List ℕ) → to_text C name (text b) ≡ ok b
  unfolding to_text
  to_text-text name b = rw (into_text-text b)

  key_to_u8-integer : (k : ℕ) → k < 256 → key_to_u8 C (integer k) ≡ ok k
  unfolding key_to_u8
  key_to_u8-integer k h = ground (arith, as_integer-integer k)

  -- The loop that fills the map keeps ascending pairs as they are.
  pub collect-keyed :
      (k : ℕ) (m acc : FieldMap Value)
      → Below k acc
      → Ascends k m
      → Below 256 m
      → collect C (keyed C m) acc ≡ ok (acc ++ m)
  unfolding collect
  collect-keyed k [] acc b a u = ap ok (sym (append-nil acc))
  collect-keyed k ((j, w) ∷ m) acc b (h, a) (u, us) = ground (
    arith,
    key_to_u8-integer j u,
    insert-Below j w acc (Below-weaken k j acc h b),
    append_assoc acc ((j, w) ∷ []) m,
    collect-keyed (suc j) m (acc ++ (j, w) ∷ [])
        (Below-append (suc j) j w acc (omega arith) (Below-weaken k (suc j) acc (omega arith) b)) a
        us,
  )

  -- One lemma for each helper: a slot with the helper's key is read, and taken out.
  module _ (k : ℕ) (name : String) (before after : Slots Value) (m : FieldMap Value)
      (lb : Lacks k before) (la : Lacks k after) (ab : Above k m) where
    pub pop_uint_opt-pushed :
        (o : Option (ℕ))
        → Holds (λ n. IsU64 n) o
        → pop_uint_opt C k name (pushed (before ++ (k, Option.map integer o) ∷ after) ++ m)
          ≡ ok (o, pushed (before ++ after) ++ m)
    unfolding pop_uint_opt
    pop_uint_opt-pushed o h =
        ap (convert C (to_uint C name)) (remove-pushed k before _ after m lb la ab)
        ∙ convert-map (to_uint C name) integer (λ n. IsU64 n) (to_uint-integer name) o _ h

    pub pop_bytes32-pushed :
        (o : Option (List ℕ))
        → Holds (λ b. length b ≡ 32) o
        → pop_bytes32 C k name (pushed (before ++ (k, Option.map bytes o) ∷ after) ++ m)
          ≡ ok (o, pushed (before ++ after) ++ m)
    unfolding pop_bytes32
    pop_bytes32-pushed o h =
        ap (convert C (to_sized C 32 (expected_bytes32 name)))
          (remove-pushed k before _ after m lb la ab)
        ∙ convert-map (to_sized C 32 (expected_bytes32 name)) bytes (λ b. length b ≡ 32)
            (to_sized-bytes 32 _) o _ h

    pub pop_bytes16-pushed :
        (o : Option (List ℕ))
        → Holds (λ b. length b ≡ 16) o
        → pop_bytes16 C k name (pushed (before ++ (k, Option.map bytes o) ∷ after) ++ m)
          ≡ ok (o, pushed (before ++ after) ++ m)
    unfolding pop_bytes16
    pop_bytes16-pushed o h =
        ap (convert C (to_sized C 16 (expected_bytes16 name)))
          (remove-pushed k before _ after m lb la ab)
        ∙ convert-map (to_sized C 16 (expected_bytes16 name)) bytes (λ b. length b ≡ 16)
            (to_sized-bytes 16 _) o _ h

    pub pop_bytes-pushed :
        (o : Option (List ℕ))
        → pop_bytes C k name (pushed (before ++ (k, Option.map bytes o) ∷ after) ++ m)
          ≡ ok (o, pushed (before ++ after) ++ m)
    unfolding pop_bytes
    pop_bytes-pushed o =
        ap (convert C (to_bytes C name)) (remove-pushed k before _ after m lb la ab)
        ∙ convert-map (to_bytes C name) bytes (λ b. Unit) (λ b u. to_bytes-bytes name b) o _
            (Holds-Unit o)

    pub pop_text_opt-pushed :
        (o : Option (List ℕ))
        → pop_text_opt C k name (pushed (before ++ (k, Option.map text o) ∷ after) ++ m)
          ≡ ok (o, pushed (before ++ after) ++ m)
    unfolding pop_text_opt
    pop_text_opt-pushed o =
        ap (convert C (to_text C name)) (remove-pushed k before _ after m lb la ab)
        ∙ convert-map (to_text C name) text (λ b. Unit) (λ b u. to_text-text name b) o _
            (Holds-Unit o)

    pub pop_uint-pushed :
        (n : ℕ)
        → IsU64 n
        → pop_uint C k name (pushed (before ++ (k, some (integer n)) ∷ after) ++ m)
          ≡ ok (n, pushed (before ++ after) ++ m)
    unfolding pop_uint
    pop_uint-pushed n h = rw (pop_uint_opt-pushed (some n) h)

  module _ (before after : Slots Value) (m : FieldMap Value) where
    pub pop_sig-pushed :
        Lacks 11 before
        → Lacks 11 after
        → Above 11 m
        → (o : Option (List ℕ)) → Holds (λ b. length b ≡ 64) o
        → pop_sig C (pushed (before ++ (11, Option.map bytes o) ∷ after) ++ m)
          ≡ ok (o, pushed (before ++ after) ++ m)
    unfolding pop_sig
    pop_sig-pushed lb la ab o h =
        ap (convert C (to_sig C)) (remove-pushed 11 before _ after m lb la ab)
        ∙ convert-map (to_sig C) bytes (λ b. length b ≡ 64) to_sig-bytes o _ h

    pub pop_enc-pushed :
        Lacks 8 before
        → Lacks 8 after
        → Above 8 m
        → (b : Bool)
        → pop_enc C (pushed (before ++ (8, some (boolean b)) ∷ after) ++ m)
          ≡ ok (b, pushed (before ++ after) ++ m)
    unfolding pop_enc to_bool
    pop_enc-pushed lb la ab b =
        ground
          (arith, remove-pushed 8 before (some (boolean b)) after m lb la ab, as_bool-boolean b)
