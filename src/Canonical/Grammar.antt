-- ===== src/Canonical/Grammar.antt =====
-- The canonical form that protocol/src/canonical.rs describes (RFC 8949 §4.2, Komms profile), as a
-- grammar of byte strings that does not mention the walker.
use komms_cli.Base.{
  ℕ, zero, suc, ◌+◌, ◌*◌, ◌<◌, ◌≤◌, ◌≡◌, List, [], ◌∷◌, ◌++◌, Option, some, none, if◌then◌else◌,
  ltb, length, to_be_bytes, IsU64,
}

-- The low five bits of a head's first byte, and the bytes behind it: the shortest of the five forms
-- of the argument.
unfoldable pub arg_code : ℕ → ℕ
arg_code n =
    if ltb n 24
    then n
    else if ltb n 0x100
    then 24
    else if ltb n 0x10000
    then 25
    else if ltb n 0x1_0000_0000
    then 26
    else 27

unfoldable pub arg_bytes : ℕ → List ℕ
arg_bytes n =
    if ltb n 24
    then []
    else if ltb n 0x100
    then to_be_bytes 1 n
    else if ltb n 0x10000
    then to_be_bytes 2 n
    else if ltb n 0x1_0000_0000
    then to_be_bytes 4 n
    else to_be_bytes 8 n

-- A head: the major type and the argument.
unfoldable pub head : ℕ → ℕ → List ℕ
head major n = (major * 32 + arg_code n) ∷ arg_bytes n

-- `n` items, one after the other.
abbrev pub Items : (List ℕ → Type 0) → ℕ → List ℕ → Type 0
Items Item zero bytes = bytes ≡ []
Items Item (suc n) bytes =
    (first : List ℕ) × (others : List ℕ) × (bytes ≡ first ++ others)
    × Item first
    × Items Item n others

-- The key is larger than the one before it, if there is one.
abbrev pub IsAbove : Option ℕ → ℕ → Type 0
IsAbove none key = Unit
IsAbove (some p) key = p < key

-- `n` entries with unsigned keys in strictly ascending order.
abbrev pub Entries : (List ℕ → Type 0) → Option ℕ → ℕ → List ℕ → Type 0
Entries Item prev zero bytes = bytes ≡ []
Entries Item prev (suc n) bytes =
    (key : ℕ) × (value : List ℕ) × (others : List ℕ) × (bytes ≡ head 0 key ++ (value ++ others))
    × IsU64 key
    × IsAbove prev key
    × Item value
    × Entries Item (some key) n others

-- One item, over the items `Item` that may stand inside it: an unsigned or negative number, a byte or
-- text string, an array, a map, or one of false, true, null and undefined. No tags and no floats.
pub data Shape (Item : List ℕ → Type 0) (bytes : List ℕ) : Type 0 where
  number : (major n : ℕ) → major ≤ 1 → IsU64 n → bytes ≡ head major n → Shape Item bytes
  string :
      (major : ℕ) (body : List ℕ)
      → 2 ≤ major
      → major ≤ 3
      → IsU64 (length body)
      → bytes ≡ head major (length body) ++ body
      → Shape Item bytes
  array :
      (n : ℕ) (body : List ℕ)
      → IsU64 n
      → Items Item n body
      → bytes ≡ head 4 n ++ body
      → Shape Item bytes
  dict :
      (n : ℕ) (body : List ℕ)
      → IsU64 n
      → Entries Item none n body
      → bytes ≡ head 5 n ++ body
      → Shape Item bytes
  simple : (initial : ℕ) → 0xF4 ≤ initial → initial ≤ 0xF7 → bytes ≡ initial ∷ [] → Shape Item bytes

-- The canonical items nested at most so many levels deep.
abbrev pub IsCanonical : ℕ → List ℕ → Type 0
IsCanonical zero bytes = ⊥
IsCanonical (suc levels) bytes = Shape (IsCanonical levels) bytes
