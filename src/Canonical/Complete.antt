-- ===== src/Canonical/Complete.antt =====
-- The walker accepts what the grammar describes, and stops right behind it.
use komms_cli.Base.{
  ℕ, zero, suc, ◌+◌, ◌*◌, ◌/◌, ◌%◌, ◌<◌, ◌≤◌, ◌^◌, ◌≡◌, refl, ap, List, [], ◌∷◌, ◌++◌, append_assoc,
  append-nil, Option, some, none, false, ok, length, length-append, take-append, drop-append,
  to_be_bytes, from_be-to_be, to_le_bytes, length-to_be_bytes, IsU64, arith, ltb, ◌==◌,
  if◌then◌else◌, le→ltb, leb,
}
use komms_cli.Canonical.Walk.{
  Cursor, Walker, read_u8, read_be, skip_bytes, shortest, read_argument, check_arg, read_uint_key,
  check_order, walk_array, walk_map, walk_simple, walk_major, walk_level, walk_item, finish,
  validate_canonical,
}
use komms_cli.Canonical.Grammar.{
  arg_code, arg_bytes, head, Items, IsAbove, Entries, Shape, number, string, array, dict, simple,
  IsCanonical,
}

abbrev pub at : ℕ → List ℕ → Cursor
at p bytes = record { pos = p; rest = bytes }

-- `item` reads each `xs` that `Item` describes off the front of any input.
abbrev pub Reads : Walker → (List ℕ → Type 0) → Type 0
Reads item Item =
    (xs : List ℕ) (p : ℕ) (rest : List ℕ)
    → Item xs
    → item (at p (xs ++ rest)) ≡ ok (at (p + length xs) rest)

-- A wide argument, in front of a rest.
read_be-to_be :
    (w n p : ℕ) (rest : List ℕ)
    → n < 256 ^ w
    → read_be w (at p (to_be_bytes w n ++ rest)) ≡ ok (n, at (p + w) rest)
unfolding read_be
read_be-to_be w n p rest h =
    let e : length (to_be_bytes w n) ≡ w = length-to_be_bytes w n in
    let enough : ltb (length (to_be_bytes w n ++ rest)) w ≡ false =
      le→ltb _ _ (omega (arith, e, length-append (to_be_bytes w n) rest)) in
    rw (enough, take-append w _ rest e, drop-append w _ rest e, from_be-to_be w n h)

skip_bytes-append :
    (body : List ℕ) (p : ℕ) (rest : List ℕ)
    → skip_bytes (length body) (at p (body ++ rest)) ≡ ok (at (p + length body) rest)
unfolding skip_bytes
skip_bytes-append body p rest =
    let enough : ltb (length (body ++ rest)) (length body) ≡ false =
      le→ltb _ _ (omega (arith, length-append body rest)) in
    rw (enough, drop-append (length body) body rest refl)

pub arg_code-le : (n : ℕ) → arg_code n ≤ 27
unfolding arg_code
arg_code-le n = ground arith

read_u8-to_be :
    (n p : ℕ) (rest : List ℕ)
    → n < 256
    → read_u8 (at p (to_be_bytes 1 n ++ rest)) ≡ ok (n, at (p + 1) rest)
unfolding read_u8 to_be_bytes to_le_bytes
read_u8-to_be n p rest h = ground arith

-- `read_argument` reads the argument behind the head's first byte, and stops there.
pub read_argument-arg_bytes :
    (n off p : ℕ) (rest : List ℕ)
    → IsU64 n
    → read_argument (arg_code n) off (at p (arg_bytes n ++ rest))
      ≡ ok (n, at (p + length (arg_bytes n)) rest)
unfolding read_argument arg_code arg_bytes shortest
read_argument-arg_bytes n off p rest h = ground (
  arith,
  read_u8-to_be n p rest,
  read_be-to_be 2 n p rest,
  read_be-to_be 4 n p rest,
  read_be-to_be 8 n p rest,
  length-to_be_bytes 1 n,
  length-to_be_bytes 2 n,
  length-to_be_bytes 4 n,
  length-to_be_bytes 8 n,
)

check_arg-arg_code : (n off : ℕ) → check_arg (arg_code n) off ≡ ok tt
unfolding check_arg
check_arg-arg_code n off = ground (arith, arg_code-le n)

head_div : (major n : ℕ) → (major * 32 + arg_code n) / 32 ≡ major
head_div major n = omega (arith, arg_code-le n)

head_mod : (major n : ℕ) → (major * 32 + arg_code n) % 32 ≡ arg_code n
head_mod major n = omega (arith, arg_code-le n)

-- What is left of `walk_level` behind a head, by its major type.
after_head : Walker → ℕ → ℕ → Walker
after_head item major n c =
    if leb major 1
    then ok c
    else if leb major 3
    then skip_bytes n c
    else if major == 4
    then walk_array item n c
    else walk_map item n none c

walk_level-head :
    (item : Walker) (major n p : ℕ) (rest : List ℕ)
    → major ≤ 5
    → IsU64 n
    → walk_level item (at p (head major n ++ rest))
      ≡ after_head item major n (at (p + length (head major n)) rest)
unfolding walk_level walk_major head after_head read_u8
walk_level-head item major n p rest hm h =
    rw
      (
        head_mod major n,
        head_div major n,
        check_arg-arg_code n p,
        read_argument-arg_bytes n p (p + 1) rest h,
      )
      (ground arith)

read_uint_key-head :
    (key p : ℕ) (rest : List ℕ)
    → IsU64 key
    → read_uint_key (at p (head 0 key ++ rest)) ≡ ok (key, at (p + length (head 0 key)) rest)
unfolding read_uint_key head read_u8
read_uint_key-head key p rest h =
    rw
      (
        head_mod 0 key,
        head_div 0 key,
        check_arg-arg_code key p,
        read_argument-arg_bytes key p (p + 1) rest h,
      )
      (ap (λ q. ok (key, at q rest)) (omega arith))

check_order-IsAbove :
    (prev : Option ℕ) (key off : ℕ) → IsAbove prev key → check_order prev key off ≡ ok tt
unfolding check_order
check_order-IsAbove none key off h = refl
check_order-IsAbove (some q) key off h = ground arith

walk_array-Items :
    {Item : List ℕ → Type 0} (item : Walker)
    → Reads item Item
    → (n : ℕ) → Reads (walk_array item n) (Items Item n)
unfolding walk_array
walk_array-Items item reads zero xs p rest h = rw h (ap (λ q. ok (at q rest)) (omega arith))
walk_array-Items item reads (suc n) xs p rest (first, others, e, hf, ho) =
    rw
      (
        e,
        append_assoc first others rest,
        reads first p (others ++ rest) hf,
        walk_array-Items item reads n others (p + length first) rest ho,
      )
      (ap (λ q. ok (at q rest)) (omega (arith, length-append first others)))

walk_map-Entries :
    {Item : List ℕ → Type 0} (item : Walker)
    → Reads item Item
    → (n : ℕ) (prev : Option ℕ) → Reads (walk_map item n prev) (Entries Item prev n)
unfolding walk_map
walk_map-Entries item reads zero prev xs p rest h = rw h (ap (λ q. ok (at q rest)) (omega arith))
walk_map-Entries item reads (suc n) prev xs p rest (key, value, others, e, hk, above, hv, ho) =
    rw
      (
        e,
        append_assoc (head 0 key) (value ++ others) rest,
        append_assoc value others rest,
        read_uint_key-head key p (value ++ (others ++ rest)) hk,
        check_order-IsAbove prev key p above,
        reads value (p + length (head 0 key)) (others ++ rest) hv,
        walk_map-Entries item reads n (some key) others _ rest ho,
      )
      (ap (λ q. ok (at q rest))
        (omega (arith, length-append (head 0 key) (value ++ others), length-append value others)))

simple_lem :
    (item : Walker) (initial p : ℕ) (rest : List ℕ)
    → 0xF4 ≤ initial
    → initial ≤ 0xF7
    → walk_level item (at p (initial ∷ rest)) ≡ ok (at (p + 1) rest)
unfolding walk_level walk_major walk_simple read_u8 check_arg
simple_lem item initial p rest lo hi = ground arith

Shape-walk_level :
    {Item : List ℕ → Type 0} (item : Walker)
    → Reads item Item
    → Reads (walk_level item) (Shape Item)
unfolding after_head
Shape-walk_level item reads xs p rest (number major n hm hn e) =
    rw (e, walk_level-head item major n p rest (omega arith) hn) (ground arith)
Shape-walk_level item reads xs p rest (string major body lo hi hn e) =
    rw
      (
        e,
        append_assoc (head major (length body)) body rest,
        walk_level-head item major (length body) p (body ++ rest) (omega arith) hn,
      )
      (ground (
        arith,
        skip_bytes-append body (p + length (head major (length body))) rest,
        length-append (head major (length body)) body,
      ))
Shape-walk_level item reads xs p rest (array n body hn items e) =
    rw
      (
        e,
        append_assoc (head 4 n) body rest,
        walk_level-head item 4 n p (body ++ rest) (omega arith) hn,
        walk_array-Items item reads n body (p + length (head 4 n)) rest items,
      )
      (ap (λ q. ok (at q rest)) (omega (arith, length-append (head 4 n) body)))
Shape-walk_level item reads xs p rest (dict n body hn entries e) =
    rw
      (
        e,
        append_assoc (head 5 n) body rest,
        walk_level-head item 5 n p (body ++ rest) (omega arith) hn,
        walk_map-Entries item reads n none body (p + length (head 5 n)) rest entries,
      )
      (ap (λ q. ok (at q rest)) (omega (arith, length-append (head 5 n) body)))
Shape-walk_level item reads xs p rest (simple initial lo hi e) =
    rw e (simple_lem item initial p rest lo hi)

-- Canonical bytes are read off the front of any input.
pub walk_item-IsCanonical : (levels : ℕ) → Reads (walk_item levels) (IsCanonical levels)
unfolding walk_item
walk_item-IsCanonical zero xs p rest h = absurd h
walk_item-IsCanonical (suc levels) xs p rest h =
    Shape-walk_level (walk_item levels) (walk_item-IsCanonical levels) xs p rest h

pub validate_canonical-IsCanonical :
    (cbor : List ℕ) → IsCanonical 9 cbor → validate_canonical cbor ≡ ok tt
unfolding validate_canonical finish
validate_canonical-IsCanonical cbor h =
    let read : walk_item 9 (at 0 cbor) ≡ ok (at (0 + length cbor) []) =
      rw (append-nil cbor) at (walk_item-IsCanonical 9 cbor 0 [] h) in
    rw read
