-- ===== src/Examples/Canonical.antt =====
-- The walker on a small map.
use komms_cli.Base.{all_bytes_sound, ℕ, List, [], ◌∷◌, ◌++◌, ok, err, ◌≡◌, ◌↔◌, refl, All, IsByte}
use komms_cli.Canonical.Walk.{
  validate_canonical, trailing_bytes, walk_item, walk_level, walk_major, walk_map, walk_array,
  walk_simple, check_order, read_uint_key, check_arg, finish, skip_bytes, read_u8, read_argument,
  read_be, shortest,
}
use komms_cli.Canonical.Grammar.{IsCanonical}
use komms_cli.Canonical.Laws.{validate_canonical_correct, validate_canonical-append}

-- `{0: 7, 24: [true, h'0102']}`
abbrev small_map : List ℕ
small_map = 0xA2 ∷ 0x00 ∷ 0x07 ∷ 0x18 ∷ 0x18 ∷ 0x82 ∷ 0xF5 ∷ 0x42 ∷ 0x01 ∷ 0x02 ∷ []

small_map-IsByte : All IsByte small_map
small_map-IsByte = all_bytes_sound small_map refl

accepted : validate_canonical small_map ≡ ok tt
unfolding validate_canonical walk_item walk_level walk_major walk_map walk_array walk_simple
    check_order read_uint_key check_arg finish skip_bytes read_u8 read_argument read_be shortest
accepted = refl

validate_canonical_correct_example :
    (validate_canonical small_map ≡ ok tt) ↔ IsCanonical 9 small_map
validate_canonical_correct_example = validate_canonical_correct small_map small_map-IsByte

validate_canonical-append_example :
    validate_canonical (small_map ++ (0x00 ∷ [])) ≡ err (trailing_bytes 10)
validate_canonical-append_example =
    validate_canonical-append small_map 0x00 [] small_map-IsByte accepted
