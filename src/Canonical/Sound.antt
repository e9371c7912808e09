-- ===== src/Canonical/Sound.antt =====
-- What the walker accepts is an item of the grammar, and the cursor is right behind it.
pub mod Steps
use komms_cli.Base.{
  ℕ, zero, suc, ◌+◌, ◌*◌, ◌/◌, ◌%◌, ◌<◌, ◌≤◌, ◌^◌, ◌≡◌, refl, sym, ap, ◌∙◌, subst, List, [], ◌∷◌,
  ◌++◌, append_assoc, append-nil, Option, some, none, ok, ◌>>=◌, >>=-eq-ok, >>-eq-ok, length,
  length-append, take, drop, take-append-drop, length-take, to_be_bytes, to_le_bytes, from_be_bytes,
  to_be-from_be, from_be-lt, IsU64, IsByte, All, All-append_left, All-append_right, arith, inl, inr,
  Bool-cases, ◌==◌, guard, leb,
}
use komms_cli.Canonical.Walk.{
  non_uint_key, Cursor, Walker, read_u8, read_be, skip_bytes, shortest, read_argument, check_arg,
  read_uint_key, check_order, walk_array, walk_map, walk_simple, walk_major, walk_level, walk_item,
  finish, validate_canonical,
}
use komms_cli.Canonical.Grammar.{
  arg_code, arg_bytes, head, Items, IsAbove, Entries, Shape, number, string, array, dict, simple,
  IsCanonical,
}
use komms_cli.Canonical.Complete.{at}
use komms_cli.Canonical.Sound.Steps.{
  Took, read_be_inv, read_be_sound, read_u8_sound, Took-All, Argument, shortest_inv, wide_sound,
  to_be_bytes_one, byte_sound, read_argument_sound, Accepts, skip_bytes_sound, Took-append,
  walk_array_sound, head_sound, major_zero, read_uint_key_sound, check_order_sound,
}

walk_map_sound :
    {Item : List ℕ → Type 0} (item : Walker)
    → Accepts item Item
    → (n : ℕ) (prev : Option ℕ) → Accepts (walk_map item n prev) (Entries Item prev n)
unfolding walk_map
walk_map_sound item accepts zero prev p bytes c hb e = ([], refl, ground arith)
walk_map_sound item accepts (suc n) prev p bytes c hb e =
    let ((key, c₁), e₁, f₁) = >>=-eq-ok (read_uint_key (at p bytes)) _ e in
    let (order, f₂) = >>-eq-ok (check_order prev key p) f₁ in
    let (c₂, e₃, f₃) = >>=-eq-ok (item c₁) (λ d. walk_map item n (some key) d) f₂ in
    let (hk, t₁) = read_uint_key_sound p key bytes c₁ hb e₁ in
    let (xs, hx, t₂) = accepts c₁.pos c₁.rest c₂ (Took-All hb t₁) e₃ in
    let (ys, hy, t₃) =
      walk_map_sound item accepts n (some key) c₂.pos c₂.rest c (Took-All (Took-All hb t₁) t₂) f₃ in
    (
      head 0 key ++ (xs ++ ys),
      (key, xs, ys, refl, hk, check_order_sound prev key p order, hx, hy),
      Took-append t₁ (Took-append t₂ t₃),
    )

-- What `walk_major` does, by the major type.
data Major (item : Walker) (initial off : ℕ) (c d : Cursor) : Type 0 where
  of_number :
      initial / 32 ≤ 1
      → (n : ℕ) → read_argument (initial % 32) off c ≡ ok (n, d)
      → Major item initial off c d
  of_string :
      2 ≤ initial / 32
      → initial / 32 ≤ 3
      → (n : ℕ) (b : Cursor) → read_argument (initial % 32) off c ≡ ok (n, b)
      → skip_bytes n b ≡ ok d
      → Major item initial off c d
  of_array :
      initial / 32 ≡ 4
      → (n : ℕ) (b : Cursor) → read_argument (initial % 32) off c ≡ ok (n, b)
      → walk_array item n b ≡ ok d
      → Major item initial off c d
  of_map :
      initial / 32 ≡ 5
      → (n : ℕ) (b : Cursor) → read_argument (initial % 32) off c ≡ ok (n, b)
      → walk_map item n none b ≡ ok d
      → Major item initial off c d
  of_simple : 0xF4 ≤ initial → initial ≤ 0xF7 → d ≡ c → Major item initial off c d

Major-walk_simple :
    (item : Walker) (initial off : ℕ) (c d : Cursor)
    → walk_simple initial off c ≡ ok d
    → Major item initial off c d
unfolding walk_simple
Major-walk_simple item initial off c d e = of_simple (ground arith) (ground arith) (ground arith)

Major-walk_major :
    (item : Walker) (initial off : ℕ) (c d : Cursor)
    → walk_major item initial off c ≡ ok d
    → Major item initial off c d
unfolding walk_major
Major-walk_major item initial off c d e = elim (Bool-cases (leb (initial / 32) 1)) [
  | inl h ↦
      let ((n, b), e₁, e₂) = >>=-eq-ok (read_argument (initial % 32) off c) _ (rw h at e) in
      of_number (ground arith) n (cc (e₁, e₂))
  | inr h₁ ↦ elim (Bool-cases (leb (initial / 32) 3)) [
    | inl h ↦
        let ((n, b), e₁, e₂) = >>=-eq-ok (read_argument (initial % 32) off c) _ (rw (h₁, h) at e) in
        of_string (ground arith) (ground arith) n b e₁ e₂
    | inr h₂ ↦ elim (Bool-cases (initial / 32 == 4)) [
      | inl h ↦
          let ((n, b), e₁, e₂) =
            >>=-eq-ok (read_argument (initial % 32) off c) _ (rw (h₁, h₂, h) at e) in
          of_array (ground arith) n b e₁ e₂
      | inr h₃ ↦ elim (Bool-cases (initial / 32 == 5)) [
        | inl h ↦
            let ((n, b), e₁, e₂) =
              >>=-eq-ok (read_argument (initial % 32) off c) _ (rw (h₁, h₂, h₃, h) at e) in
            of_map (ground arith) n b e₁ e₂
        | inr h₄ ↦ elim (Bool-cases (initial / 32 == 6)) [
          | inl h ↦
              let ((n, b), e₁, e₂) =
                >>=-eq-ok (read_argument (initial % 32) off c) _ (rw (h₁, h₂, h₃, h₄, h) at e) in
              cc e₂
          | inr h ↦ Major-walk_simple item initial off c d (rw (h₁, h₂, h₃, h₄, h) at e)
        ]
      ]
    ]
  ]
]

Shape-Major :
    {Item : List ℕ → Type 0} (item : Walker)
    → Accepts item Item
    → (initial p : ℕ) (bytes : List ℕ) (c d : Cursor) → All IsByte bytes
    → Took p bytes (initial ∷ []) c
    → Major item initial p c d
    → (xs : List ℕ) × Shape Item xs × Took p bytes xs d
Shape-Major item accepts initial p bytes c d hb took (of_number hm n e) =
    let a = read_argument_sound (initial % 32) p c.pos n c.rest d (Took-All hb took) e in
    (
      head (initial / 32) n,
      number (initial / 32) n hm a.small refl,
      head_sound (initial / 32) initial p n bytes c d took refl a,
    )
Shape-Major item accepts initial p bytes c d hb took (of_string lo hi n b e f) =
    let a = read_argument_sound (initial % 32) p c.pos n c.rest b (Took-All hb took) e in
    let (body, hl, t) = skip_bytes_sound n b.pos b.rest d f in
    let small : IsU64 (length body) = omega (arith, hl, a.small) in
    let t' = head_sound (initial / 32) initial p n bytes c b took refl a in
    (
      head (initial / 32) n ++ body,
      string (initial / 32) body lo hi small (ap (λ k. head (initial / 32) k ++ body) (sym hl)),
      Took-append t' t,
    )
Shape-Major item accepts initial p bytes c d hb took (of_array hm n b e f) =
    let a = read_argument_sound (initial % 32) p c.pos n c.rest b (Took-All hb took) e in
    let t' = head_sound 4 initial p n bytes c b took hm a in
    let (body, items, t) = walk_array_sound item accepts n b.pos b.rest d (Took-All hb t') f in
    (head 4 n ++ body, array n body a.small items refl, Took-append t' t)
Shape-Major item accepts initial p bytes c d hb took (of_map hm n b e f) =
    let a = read_argument_sound (initial % 32) p c.pos n c.rest b (Took-All hb took) e in
    let t' = head_sound 5 initial p n bytes c b took hm a in
    let (body, entries, t) = walk_map_sound item accepts n none b.pos b.rest d (Took-All hb t') f in
    (head 5 n ++ body, dict n body a.small entries refl, Took-append t' t)
Shape-Major item accepts initial p bytes c d hb took (of_simple lo hi e) =
    (initial ∷ [], simple initial lo hi refl, rw e took)

walk_level_sound :
    {Item : List ℕ → Type 0} (item : Walker)
    → Accepts item Item
    → Accepts (walk_level item) (Shape Item)
unfolding walk_level
walk_level_sound item accepts p bytes c hb e =
    let ((initial, d), e₁, f₁) = >>=-eq-ok (read_u8 (at p bytes)) _ e in
    let (form, f₂) = >>-eq-ok (check_arg (initial % 32) p) f₁ in
    let (took, small, hd) = read_u8_sound p initial bytes d hb e₁ in
    Shape-Major item accepts initial p bytes d c hb took (Major-walk_major item initial p d c f₂)

pub walk_item_sound : (levels : ℕ) → Accepts (walk_item levels) (IsCanonical levels)
unfolding walk_item
walk_item_sound zero p bytes c hb e = cc
walk_item_sound (suc levels) p bytes c hb e =
    walk_level_sound (walk_item levels) (walk_item_sound levels) p bytes c hb e

finish_sound : (c : Cursor) → finish c ≡ ok tt → c.rest ≡ []
unfolding finish
finish_sound c e = nil_of_length c.rest (ground arith)
  where
    nil_of_length : (bs : List ℕ) → length bs ≡ 0 → bs ≡ []
    nil_of_length [] h = refl
    nil_of_length (b ∷ bs) h = absurd (omega arith)

pub IsCanonical-validate_canonical :
    (cbor : List ℕ) → All IsByte cbor → validate_canonical cbor ≡ ok tt → IsCanonical 9 cbor
unfolding validate_canonical
IsCanonical-validate_canonical cbor hb e =
    let (c, walked, done) = >>=-eq-ok (walk_item 9 (at 0 cbor)) finish e in
    let (xs, hx, took) = walk_item_sound 9 0 cbor c hb walked in
    let whole : cbor ≡ xs =
      took.bytes_lem ∙ ap (λ r. xs ++ r) (finish_sound c done) ∙ append-nil xs in
    subst (IsCanonical 9) (sym whole) hx
