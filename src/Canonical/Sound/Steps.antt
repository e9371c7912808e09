-- ===== src/Canonical/Sound/Steps.antt =====
-- What the readers and the loop over an array take off the front of their input.
use komms_cli.Base.{
  ℕ, zero, suc, ◌+◌, ◌*◌, ◌/◌, ◌%◌, ◌<◌, ◌≤◌, ◌^◌, ◌≡◌, refl, sym, ap, ◌∙◌, subst, List, [], ◌∷◌,
  ◌++◌, append_assoc, Option, some, none, ok, ◌>>=◌, >>=-eq-ok, >>-eq-ok, length, length-append,
  take, drop, take-append-drop, length-take, to_be_bytes, to_le_bytes, from_be_bytes, to_be-from_be,
  from_be-lt, IsU64, IsByte, All, All-append_left, All-append_right, arith, ◌==◌, guard,
}
use komms_cli.Canonical.Walk.{
  non_uint_key, Cursor, Walker, read_u8, read_be, skip_bytes, shortest, read_argument, check_arg,
  read_uint_key, check_order, walk_array,
}
use komms_cli.Canonical.Grammar.{arg_code, arg_bytes, head, Items, IsAbove}
use komms_cli.Canonical.Complete.{at}

-- The bytes that a step took, and where it stopped.
pub record Took (p : ℕ) (bytes xs : List ℕ) (c : Cursor) : Type 0 where
  pub bytes_lem : bytes ≡ xs ++ c.rest
  pub pos_lem : c.pos ≡ p + length xs

pub read_be_inv :
    (w p n : ℕ) (bytes : List ℕ) (c : Cursor)
    → read_be w (at p bytes) ≡ ok (n, c)
    → (w ≤ length bytes) × (n ≡ from_be_bytes (take w bytes)) × (c ≡ at (p + w) (drop w bytes))
unfolding read_be
read_be_inv w p n bytes c e = ground arith

pub read_be_sound :
    (w p n : ℕ) (bytes : List ℕ) (c : Cursor)
    → All IsByte bytes
    → read_be w (at p bytes) ≡ ok (n, c)
    → Took p bytes (to_be_bytes w n) c × (n < 256 ^ w)
read_be_sound w p n bytes c hb e =
    let (hw, en, ec) = read_be_inv w p n bytes c e in
    let hl : length (take w bytes) ≡ w = length-take w bytes hw in
    let ha : All IsByte (take w bytes) =
      All-append_left IsByte (take w bytes) (drop w bytes) (rw (take-append-drop w bytes) hb) in
    let back : to_be_bytes w (from_be_bytes (take w bytes)) ≡ take w bytes =
      subst (λ k. to_be_bytes k (from_be_bytes (take w bytes)) ≡ take w bytes) hl
        (to_be-from_be (take w bytes) ha) in
    let small : from_be_bytes (take w bytes) < 256 ^ w =
      subst (λ k. from_be_bytes (take w bytes) < 256 ^ k) hl (from_be-lt (take w bytes) ha) in
    rw (en, ec, back)
      (
        record { bytes_lem = sym (take-append-drop w bytes); pos_lem = ap (λ k. p + k) (sym hl) },
        small,
      )

pub read_u8_sound :
    (p n : ℕ) (bytes : List ℕ) (c : Cursor)
    → All IsByte bytes
    → read_u8 (at p bytes) ≡ ok (n, c)
    → Took p bytes (n ∷ []) c × (n < 256) × All IsByte c.rest
unfolding read_u8
read_u8_sound p n [] c hb e = cc
read_u8_sound p n (b ∷ bs) c hb e = ground arith

-- Also when the step's result is a value, the bytes left are bytes.
pub Took-All :
    {p : ℕ} {bytes xs : List ℕ} {c : Cursor}
    → All IsByte bytes
    → Took p bytes xs c
    → All IsByte c.rest
Took-All {xs = xs} {c = c} hb t = All-append_right IsByte xs c.rest (rw t.bytes_lem at hb)

pub record Argument (arg p : ℕ) (bytes : List ℕ) (n : ℕ) (c : Cursor) : Type 0 where
  pub code_lem : arg ≡ arg_code n
  pub took : Took p bytes (arg_bytes n) c
  pub small : IsU64 n

pub shortest_inv :
    (bound off n : ℕ) (r : ℕ × Cursor) (c : Cursor)
    → shortest bound off r ≡ ok (n, c)
    → (r ≡ (n, c)) × (bound < n)
unfolding shortest
shortest_inv bound off n (m, d) c e = ground arith

pub wide_sound :
    (w bound off p n : ℕ) (bytes : List ℕ) (c : Cursor)
    → All IsByte bytes
    → (read_be w (at p bytes) >>= shortest bound off) ≡ ok (n, c)
    → Took p bytes (to_be_bytes w n) c × (n < 256 ^ w) × (bound < n)
wide_sound w bound off p n bytes c hb e =
    let (r, read, short) = >>=-eq-ok (read_be w (at p bytes)) (shortest bound off) e in
    let (er, low) = shortest_inv bound off n r c short in
    let (took, high) = read_be_sound w p n bytes c hb (rw er at read) in (took, high, low)

pub to_be_bytes_one : (n : ℕ) → n < 256 → to_be_bytes 1 n ≡ n ∷ []
unfolding to_be_bytes to_le_bytes
to_be_bytes_one n h = ap (λ k. k ∷ []) (omega arith)

pub byte_sound :
    (bound off p n : ℕ) (bytes : List ℕ) (c : Cursor)
    → All IsByte bytes
    → (read_u8 (at p bytes) >>= shortest bound off) ≡ ok (n, c)
    → Took p bytes (to_be_bytes 1 n) c × (n < 256) × (bound < n)
byte_sound bound off p n bytes c hb e =
    let (r, read, short) = >>=-eq-ok (read_u8 (at p bytes)) (shortest bound off) e in
    let (er, low) = shortest_inv bound off n r c short in
    let (took, high, left) = read_u8_sound p n bytes c hb (rw er at read) in
    rw (to_be_bytes_one n high) (took, high, low)

pub read_argument_sound :
    (arg off p n : ℕ) (bytes : List ℕ) (c : Cursor)
    → All IsByte bytes
    → read_argument arg off (at p bytes) ≡ ok (n, c)
    → Argument arg p bytes n c
unfolding read_argument arg_code arg_bytes
read_argument_sound arg off p n bytes c hb e = ground (
  arith,
  byte_sound 23 off p n bytes c hb,
  wide_sound 2 0xFF off p n bytes c hb,
  wide_sound 4 0xFFFF off p n bytes c hb,
  wide_sound 8 0xFFFF_FFFF off p n bytes c hb,
)

-- A walker takes only what `Item` describes.
abbrev pub Accepts : Walker → (List ℕ → Type 0) → Type 0
Accepts item Item =
    (p : ℕ) (bytes : List ℕ) (c : Cursor)
    → All IsByte bytes
    → item (at p bytes) ≡ ok c
    → (xs : List ℕ) × Item xs × Took p bytes xs c

pub skip_bytes_sound :
    (n p : ℕ) (bytes : List ℕ) (c : Cursor)
    → skip_bytes n (at p bytes) ≡ ok c
    → (body : List ℕ) × (length body ≡ n) × Took p bytes body c
unfolding skip_bytes
skip_bytes_sound n p bytes c e =
    let (h, ec) = inv in
    let hl : length (take n bytes) ≡ n = length-take n bytes h in
    (
      take n bytes,
      hl,
      rw ec (record {
        bytes_lem = sym (take-append-drop n bytes);
        pos_lem = ap (λ k. p + k) (sym hl);
      }),
    )
  where
    inv : (n ≤ length bytes) × (c ≡ at (p + n) (drop n bytes))
    inv = ground arith

-- Two steps, one after the other.
pub Took-append :
    {p : ℕ} {bytes xs ys : List ℕ} {c d : Cursor}
    → Took p bytes xs c
    → Took c.pos c.rest ys d
    → Took p bytes (xs ++ ys) d
Took-append {xs = xs} {ys = ys} {d = d} s t = record {
  bytes_lem = s.bytes_lem ∙ ap (λ r. xs ++ r) t.bytes_lem ∙ sym (append_assoc xs ys d.rest);
  pos_lem = omega (arith, s.pos_lem, t.pos_lem, length-append xs ys);
}

pub walk_array_sound :
    {Item : List ℕ → Type 0} (item : Walker)
    → Accepts item Item
    → (n : ℕ) → Accepts (walk_array item n) (Items Item n)
unfolding walk_array
walk_array_sound item accepts zero p bytes c hb e = ([], refl, ground arith)
walk_array_sound item accepts (suc n) p bytes c hb e =
    let (c', first, later) = >>=-eq-ok (item (at p bytes)) (λ d. walk_array item n d) e in
    let (xs, hx, tx) = accepts p bytes c' hb first in
    let (ys, hy, ty) = walk_array_sound item accepts n c'.pos c'.rest c (Took-All hb tx) later in
    (xs ++ ys, (xs, ys, refl, hx, hy), Took-append tx ty)

-- A first byte and the argument behind it make a head.
pub head_sound :
    (major initial p n : ℕ) (bytes : List ℕ) (d c : Cursor)
    → Took p bytes (initial ∷ []) d
    → initial / 32 ≡ major
    → Argument (initial % 32) d.pos d.rest n c
    → Took p bytes (head major n) c
unfolding head
head_sound major initial p n bytes d c first hm a =
    let e : initial ≡ major * 32 + arg_code n = omega (arith, hm, a.code_lem) in
    subst (λ k. Took p bytes (k ∷ arg_bytes n) c) e (Took-append first a.took)

pub major_zero :
    (initial off : ℕ) → guard (initial / 32 == 0) (non_uint_key off) ≡ ok tt → initial / 32 ≡ 0
major_zero initial off h = ground arith

pub read_uint_key_sound :
    (p key : ℕ) (bytes : List ℕ) (c : Cursor)
    → All IsByte bytes
    → read_uint_key (at p bytes) ≡ ok (key, c)
    → IsU64 key × Took p bytes (head 0 key) c
unfolding read_uint_key
read_uint_key_sound p key bytes c hb e =
    let ((initial, d), first, e₁) = >>=-eq-ok (read_u8 (at p bytes)) _ e in
    let (zero_major, e₂) = >>-eq-ok _ e₁ in
    let (form, e₃) = >>-eq-ok (check_arg (initial % 32) p) e₂ in
    let (took, small, hd) = read_u8_sound p initial bytes d hb first in
    let a = read_argument_sound (initial % 32) p d.pos key d.rest c hd e₃ in
    (a.small, head_sound 0 initial p key bytes d c took (major_zero initial p zero_major) a)

pub check_order_sound :
    (prev : Option ℕ) (key off : ℕ) → check_order prev key off ≡ ok tt → IsAbove prev key
unfolding check_order
check_order_sound none key off h = tt
check_order_sound (some q) key off h = ground arith
