-- ===== src/Canonical/Walk.antt =====
-- protocol/src/canonical.rs: `validate_canonical` and the functions below it.
-- The cursor holds the offset `*pos` and the slice `cbor[*pos..]`. Where the code compares an end
-- offset with `cbor.len()`, the model compares with the length of that slice; a sum that overflows
-- `usize` lies past every slice too, and both report the same `Truncated`.
use komms_cli.Base.{
  ℕ, zero, suc, ◌+◌, ◌/◌, ◌%◌, List, [], ◌∷◌, not, ◌&&◌, Option, some, none, Result, ok, err, ◌>>=◌,
  ◌>>◌, guard, if◌then◌else◌, ltb, leb, ◌==◌, length, take, drop, from_be_bytes,
}

pub data CanonicalError : Type 0 where
  truncated nesting_too_deep indefinite_length non_shortest_form non_uint_key : ℕ → CanonicalError
  keys_out_of_order float_forbidden trailing_bytes reserved_argument : ℕ → CanonicalError
  duplicate_key tagged_item invalid_simple_value : ℕ → ℕ → CanonicalError

pub record Cursor : Type 0 where
  pub pos : ℕ
  pub rest : List ℕ

abbrev pub Step : Type 0 → Type 0
Step A = Cursor → Result CanonicalError (A × Cursor)

abbrev pub Walker : Type 0
Walker = Cursor → Result CanonicalError Cursor

abbrev pub max_nesting_depth : ℕ
max_nesting_depth = 8

unfoldable pub read_u8 : Step ℕ
read_u8 c = elim c.rest [
  | [] ↦ err (truncated c.pos)
  | b ∷ bs ↦ ok (b, record { pos = c.pos + 1; rest = bs })
]

-- `read_u16_be`, `read_u32_be` and `read_u64_be`, by their width in bytes.
unfoldable pub read_be : ℕ → Step ℕ
read_be width c =
    if ltb (length c.rest) width
    then err (truncated c.pos)
    else ok (
      from_be_bytes (take width c.rest),
      record { pos = c.pos + width; rest = drop width c.rest },
    )

unfoldable pub skip_bytes : ℕ → Walker
skip_bytes n c =
    if ltb (length c.rest) n
    then err (truncated c.pos)
    else ok (record { pos = c.pos + n; rest = drop n c.rest })

-- The value of a wider argument, refused up to `bound`, the largest that the next shorter form holds.
unfoldable pub shortest : ℕ → ℕ → ℕ × Cursor → Result CanonicalError (ℕ × Cursor)
shortest bound initial_off (v, c) =
    if leb v bound then err (non_shortest_form initial_off) else ok (v, c)

unfoldable pub read_argument : ℕ → ℕ → Step ℕ
read_argument arg initial_off c =
    if leb arg 23
    then ok (arg, c)
    else if arg == 24
    then (read_u8 c >>= shortest 23 initial_off)
    else if arg == 25
    then (read_be 2 c >>= shortest 0xFF initial_off)
    else if arg == 26
    then (read_be 4 c >>= shortest 0xFFFF initial_off)
    else if arg == 27
    then (read_be 8 c >>= shortest 0xFFFF_FFFF initial_off)
    else err (reserved_argument initial_off)

-- The two refusals that `walk_item` and `read_uint_key` share.
unfoldable pub check_arg : ℕ → ℕ → Result CanonicalError (Unit {0})
check_arg arg initial_off = do
  guard (not (arg == 0x1F)) (indefinite_length initial_off)
  guard (not (leb 28 arg && leb arg 30)) (reserved_argument initial_off)

unfoldable pub read_uint_key : Step ℕ
read_uint_key c = do
  (initial, c') ← read_u8 c
  guard (initial / 32 == 0) (non_uint_key c.pos)
  check_arg (initial % 32) c.pos
  read_argument (initial % 32) c.pos c'

-- Strictly ascending keys: the previous key, if any, is smaller.
unfoldable pub check_order : Option ℕ → ℕ → ℕ → Result CanonicalError (Unit {0})
check_order none key key_off = ok tt
check_order (some p) key key_off =
    if leb key p
    then (if key == p then err (duplicate_key key key_off) else err (keys_out_of_order key_off))
    else ok tt

-- The loops over an array's and a map's items; `item` is `walk_item` one level down.
unfoldable pub walk_array : Walker → ℕ → Walker
walk_array item zero c = ok c
walk_array item (suc count) c = item c >>= λ c'. walk_array item count c'

unfoldable pub walk_map : Walker → ℕ → Option ℕ → Walker
walk_map item zero prev_key c = ok c
walk_map item (suc count) prev_key c = do
  (key, c₁) ← read_uint_key c
  check_order prev_key key c.pos
  c₂ ← item c₁
  walk_map item count (some key) c₂

unfoldable pub walk_simple : ℕ → ℕ → Walker
walk_simple initial initial_off c =
    if leb 0xF4 initial && leb initial 0xF7
    then ok c
    else if leb 0xF9 initial && leb initial 0xFB
    then err (float_forbidden initial_off)
    else err (invalid_simple_value initial initial_off)

-- `match major`, with `initial` the first byte and `c` the cursor behind it.
unfoldable pub walk_major : Walker → ℕ → ℕ → Walker
walk_major item initial initial_off c =
    let major = initial / 32 in
    let argument = read_argument (initial % 32) initial_off c in
    if leb major 1
    then (argument >>= λ (value, c'). ok c')
    else if leb major 3
    then (argument >>= λ (len, c'). skip_bytes len c')
    else if major == 4
    then (argument >>= λ (count, c'). walk_array item count c')
    else if major == 5
    then (argument >>= λ (count, c'). walk_map item count none c')
    else if major == 6
    then (argument >>= λ (tag, c'). err (tagged_item tag initial_off))
    else walk_simple initial initial_off c

-- One level of nesting, over the walker `item` of the level below.
unfoldable pub walk_level : Walker → Walker
walk_level item c = do
  (initial, c') ← read_u8 c
  check_arg (initial % 32) c.pos
  walk_major item initial c.pos c'

-- `levels` is MAX_NESTING_DEPTH + 1 - depth, the levels that are left; none are when
-- `depth > MAX_NESTING_DEPTH`.
unfoldable pub walk_item : ℕ → Walker
walk_item zero c = err (nesting_too_deep c.pos)
walk_item (suc levels) c = walk_level (walk_item levels) c

unfoldable pub finish : Cursor → Result CanonicalError (Unit {0})
finish c = if length c.rest == 0 then ok tt else err (trailing_bytes c.pos)

unfoldable pub validate_canonical : List ℕ → Result CanonicalError (Unit {0})
validate_canonical cbor =
    walk_item (max_nesting_depth + 1) (record { pos = 0; rest = cbor }) >>= finish
