-- ===== src/Protocol/Ciborium.antt =====
-- The `ciborium` crate as protocol/src uses it: its `Value` type, the values that the code builds, the
-- accessors, the reader and the writer. Only the laws of the accessors on built values are assumed here.
use komms_cli.Base.{
  ℕ, String, List, [], ◌∷◌, ◌++◌, Bool, Option, some, Result, ◌≡◌, if◌then◌else◌, length, ℤ, pos,
  IsU64,
}
use komms_cli.Canonical.Grammar.{head}

pub record Ciborium : Type 1 where
  pub Value : Type 0
  -- `Value::Integer(n.into())`, `Value::Bytes`, `Value::Text`, `Value::Bool`, `Value::Map`
  pub integer : ℕ → Value
  pub bytes : List ℕ → Value
  pub text : List ℕ → Value
  pub boolean : Bool → Value
  pub dict : List (Value × Value) → Value
  pub as_integer : Value → Option ℤ
  pub into_bytes : Value → Option (List ℕ)
  pub into_text : Value → Option (List ℕ)
  pub as_bool : Value → Option Bool
  -- the pattern `Value::Map(entries)`
  pub as_map : Value → Option (List (Value × Value))
  pub from_reader : List ℕ → Result String Value
  pub into_writer : Value → List ℕ
  pub as_integer-integer : (n : ℕ) → as_integer (integer n) ≡ some (pos n)
  pub into_bytes-bytes : (b : List ℕ) → into_bytes (bytes b) ≡ some b
  pub into_text-text : (b : List ℕ) → into_text (text b) ≡ some b
  pub as_bool-boolean : (b : Bool) → as_bool (boolean b) ≡ some b
  pub as_map-dict : (ps : List (Value × Value)) → as_map (dict ps) ≡ some ps

module _ (C : Ciborium) where
  open C use {Value, integer, bytes, text, boolean, dict, into_writer}

  -- The entries of a map, one after the other.
  abbrev pub written : List (Value × Value) → List ℕ
  written [] = []
  written ((k, v) ∷ ps) = into_writer k ++ (into_writer v ++ written ps)

  -- The writer's documented form: RFC 8949 with the smallest heads and definite lengths.
  pub record Writes : Type 0 where
    pub writes_integer : (n : ℕ) → IsU64 n → into_writer (integer n) ≡ head 0 n
    pub writes_bytes :
        (b : List ℕ) → IsU64 (length b) → into_writer (bytes b) ≡ head 2 (length b) ++ b
    pub writes_text :
        (b : List ℕ) → IsU64 (length b) → into_writer (text b) ≡ head 3 (length b) ++ b
    pub writes_boolean : (b : Bool) → into_writer (boolean b) ≡ (if b then 0xF5 else 0xF4) ∷ []
    pub writes_dict :
        (ps : List (Value × Value))
        → IsU64 (length ps)
        → into_writer (dict ps) ≡ head 5 (length ps) ++ written ps
