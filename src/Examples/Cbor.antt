-- ===== src/Examples/Cbor.antt =====
-- A CBOR codec that stands in for ciborium: values, writer, and a reader by fuel.
use komms_cli.Base.{
  ℕ, zero, suc, String, List, [], ◌∷◌, ◌++◌, Bool, true, false, Option, none, some, Result, ok, err,
  ◌≡◌, refl, ap, ◌>>=◌, ◌+◌, ◌/◌, ◌%◌, if◌then◌else◌, ◌==◌, length, take, drop, ℤ, pos, map_err,
}
use komms_cli.Canonical.Grammar.{head}
use komms_cli.Canonical.Walk.{Cursor, read_u8, read_argument}
use komms_cli.Protocol.Ciborium.{Ciborium, Writes, written}

mutual
  pub data CborValue : Type 0 where
    integer : ℕ → CborValue
    bytes : List ℕ → CborValue
    text : List ℕ → CborValue
    boolean : Bool → CborValue
    dict : CborPairs → CborValue

  pub data CborPairs : Type 0 where
    end : CborPairs
    pair : CborValue → CborValue → CborPairs → CborPairs

abbrev pub to_pairs : List (CborValue × CborValue) → CborPairs
to_pairs [] = end
to_pairs ((k, v) ∷ ps) = pair k v (to_pairs ps)

abbrev pub from_pairs : CborPairs → List (CborValue × CborValue)
from_pairs end = []
from_pairs (pair k v ps) = (k, v) ∷ from_pairs ps

abbrev pub count : CborPairs → ℕ
count end = 0
count (pair k v ps) = suc (count ps)

unfoldable mutual
  pub write : CborValue → List ℕ
  write (integer n) = head 0 n
  write (bytes b) = head 2 (length b) ++ b
  write (text b) = head 3 (length b) ++ b
  write (boolean b) = (if b then 0xF5 else 0xF4) ∷ []
  write (dict ps) = head 5 (count ps) ++ write_pairs ps

  pub write_pairs : CborPairs → List ℕ
  write_pairs end = []
  write_pairs (pair k v ps) = write k ++ (write v ++ write_pairs ps)

abbrev pub Reader : Type 0 → Type 0
Reader A = Cursor → Result String (A × Cursor)

-- `n` pairs, each read by `item`.
unfoldable pub read_pairs : Reader CborValue → ℕ → Reader CborPairs
read_pairs item zero c = ok (end, c)
read_pairs item (suc n) c = do
  (k, c₁) ← item c
  (v, c₂) ← item c₁
  (ps, c₃) ← read_pairs item n c₂
  ok (pair k v ps, c₃)

unfoldable pub read_major : Reader CborValue → ℕ → ℕ → Reader CborValue
read_major item initial n c =
    let rest : Cursor = record { pos = c.pos + n; rest = drop n c.rest } in
    let major = initial / 32 in
    if major == 0
    then ok (integer n, c)
    else if major == 2
    then ok (bytes (take n c.rest), rest)
    else if major == 3
    then ok (text (take n c.rest), rest)
    else if major == 5
    then (read_pairs item n c >>= λ (ps, c'). ok (dict ps, c'))
    else if initial == 0xF4
    then ok (boolean false, c)
    else if initial == 0xF5
    then ok (boolean true, c)
    else err "unexpected item"

-- Values nested at most `levels` deep.
unfoldable pub read_value : ℕ → Reader CborValue
read_value zero c = err "too deep"
read_value (suc levels) c = do
  (initial, c₁) ← map_err (λ e. "truncated") (read_u8 c)
  (n, c₂) ← map_err (λ e. "argument") (read_argument (initial % 32) c.pos c₁)
  read_major (read_value levels) initial n c₂

unfoldable pub read : List ℕ → Result String CborValue
read cbor = read_value 9 (record { pos = 0; rest = cbor }) >>= λ (v, c). ok v

-- A negative value does not occur.
abbrev pub as_integer : CborValue → Option ℤ
as_integer (integer n) = some (pos n)
as_integer _ = none

abbrev pub into_bytes : CborValue → Option (List ℕ)
into_bytes (bytes b) = some b
into_bytes _ = none

abbrev pub into_text : CborValue → Option (List ℕ)
into_text (text b) = some b
into_text _ = none

abbrev pub as_bool : CborValue → Option Bool
as_bool (boolean b) = some b
as_bool _ = none

abbrev pub as_map : CborValue → Option (List (CborValue × CborValue))
as_map (dict ps) = some (from_pairs ps)
as_map _ = none

pub from-to : (ps : List (CborValue × CborValue)) → from_pairs (to_pairs ps) ≡ ps
from-to [] = refl
from-to (p ∷ ps) = ap (λ qs. p ∷ qs) (from-to ps)

count-to : (ps : List (CborValue × CborValue)) → count (to_pairs ps) ≡ length ps
count-to [] = refl
count-to (p ∷ ps) = ap suc (count-to ps)

abbrev pub codec : Ciborium
codec = record {
  Value = CborValue;
  integer = λ n. integer n;
  bytes = λ b. bytes b;
  text = λ b. text b;
  boolean = λ b. boolean b;
  dict = λ ps. dict (to_pairs ps);
  as_integer = as_integer;
  into_bytes = into_bytes;
  into_text = into_text;
  as_bool = as_bool;
  as_map = as_map;
  from_reader = read;
  into_writer = write;
  as_integer-integer = λ n. refl;
  into_bytes-bytes = λ b. refl;
  into_text-text = λ b. refl;
  as_bool-boolean = λ b. refl;
  as_map-dict = λ ps. ap some (from-to ps);
}

write_pairs-to : (ps : List (CborValue × CborValue)) → write_pairs (to_pairs ps) ≡ written codec ps
unfolding write
write_pairs-to [] = refl
write_pairs-to ((k, v) ∷ ps) = ap (λ r. write k ++ (write v ++ r)) (write_pairs-to ps)

pub codec-Writes : Writes codec
unfolding write
codec-Writes = record {
  writes_integer = λ n h. refl;
  writes_bytes = λ b h. refl;
  writes_text = λ b h. refl;
  writes_boolean = λ b. refl;
  writes_dict = λ ps h. rw (count-to ps, write_pairs-to ps) refl;
}
