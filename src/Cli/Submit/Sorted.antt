-- ===== src/Cli/Submit/Sorted.antt =====
-- The largest entries first: no choice of as many entries is worth more than the front of the sorted list.
use komms_cli.Base.{
  ℕ, zero, suc, ◌+◌, ◌≤◌, ◌≡◌, refl, List, [], ◌∷◌, ◌++◌, length, take, All, arith, Bool-cases, inl,
  inr, leb,
}
use mathlib.Core.List.{Permᴰ}
use mathlib.Core.List.Permᴰ
use komms_cli.Cli.Submit.Pick.{insert, sort_by_amount}

-- A choice of entries, in their order.
pub data Choice {A : Type 0} : List A → List A → Type 0 where
  nothing : Choice [] []
  keep : (a : A) {s xs : List A} → Choice s xs → Choice (a ∷ s) (a ∷ xs)
  skip : (a : A) {s xs : List A} → Choice s xs → Choice s (a ∷ xs)

module _ {Entry : Type 0} (amount : Entry → ℕ) where
  abbrev pub total : List Entry → ℕ
  total [] = 0
  total (e ∷ es) = amount e + total es

  abbrev pub AtMost : ℕ → List Entry → Type 0
  AtMost m = All (λ e. amount e ≤ m)

  abbrev pub IsDescending : List Entry → Type 0
  IsDescending [] = Unit
  IsDescending (e ∷ es) = AtMost (amount e) es × IsDescending es

  pub total-append : (xs ys : List Entry) → total (xs ++ ys) ≡ total xs + total ys
  total-append [] ys = omega arith
  total-append (x ∷ xs) ys = omega (arith, total-append xs ys)

  pub total-take : (k : ℕ) (xs : List Entry) → total (take k xs) ≤ total xs
  total-take zero xs = omega arith
  total-take (suc k) [] = omega arith
  total-take (suc k) (x ∷ xs) = omega (arith, total-take k xs)

  AtMost-weaken : (m n : ℕ) (xs : List Entry) → m ≤ n → AtMost m xs → AtMost n xs
  AtMost-weaken m n [] h a = tt
  AtMost-weaken m n (x ∷ xs) h (ax, a) = (omega arith, AtMost-weaken m n xs h a)

  AtMost-insert :
      (m : ℕ) (x : Entry) (l : List Entry)
      → amount x ≤ m
      → AtMost m l
      → AtMost m (insert amount x l)
  unfolding insert
  AtMost-insert m x [] h a = (h, tt)
  AtMost-insert m x (f ∷ l) h (af, a) = elim (Bool-cases (leb (amount f) (amount x))) [
    | inl c ↦ rw c (h, (af, a))
    | inr c ↦ rw c (af, AtMost-insert m x l h a)
  ]

  insert-IsDescending :
      (x : Entry) (l : List Entry) → IsDescending l → IsDescending (insert amount x l)
  unfolding insert
  insert-IsDescending x [] d = (tt, tt)
  insert-IsDescending x (f ∷ l) (a, d) = elim (Bool-cases (leb (amount f) (amount x))) [
    | inl c ↦
        let le : amount f ≤ amount x = ground arith in
        rw c ((le, AtMost-weaken (amount f) (amount x) l le a), (a, d))
    | inr c ↦ rw c (AtMost-insert (amount f) x l (ground arith) a, insert-IsDescending x l d)
  ]

  pub sort-IsDescending : (xs : List Entry) → IsDescending (sort_by_amount amount xs)
  unfolding sort_by_amount
  sort-IsDescending [] = tt
  sort-IsDescending (x ∷ xs) =
      insert-IsDescending x (sort_by_amount amount xs) (sort-IsDescending xs)

  total-insert : (x : Entry) (l : List Entry) → total (insert amount x l) ≡ amount x + total l
  unfolding insert
  total-insert x [] = refl
  total-insert x (f ∷ l) = ground (arith, total-insert x l)

  pub total-sort : (xs : List Entry) → total (sort_by_amount amount xs) ≡ total xs
  unfolding sort_by_amount
  total-sort [] = refl
  total-sort (x ∷ xs) = omega (arith, total-insert x (sort_by_amount amount xs), total-sort xs)

  length-insert : (x : Entry) (l : List Entry) → length (insert amount x l) ≡ suc (length l)
  unfolding insert
  length-insert x [] = refl
  length-insert x (f ∷ l) = ground (arith, length-insert x l)

  pub length-sort : (xs : List Entry) → length (sort_by_amount amount xs) ≡ length xs
  unfolding sort_by_amount
  length-sort [] = refl
  length-sort (x ∷ xs) = omega (arith, length-insert x (sort_by_amount amount xs), length-sort xs)

  -- One more entry below a bound adds at most the bound.
  take-suc_le :
      (m k : ℕ) (l : List Entry) → AtMost m l → total (take (suc k) l) ≤ m + total (take k l)
  take-suc_le m k [] a = omega arith
  take-suc_le m zero (x ∷ l) (ax, a) = omega arith
  take-suc_le m (suc k) (x ∷ l) (ax, a) = omega (arith, take-suc_le m k l a)

  take-insert-skip :
      (x : Entry) (k : ℕ) (l : List Entry)
      → IsDescending l
      → total (take k l) ≤ total (take k (insert amount x l))
  unfolding insert
  take-insert-skip x zero l d = omega arith
  take-insert-skip x (suc k) [] d = omega arith
  take-insert-skip x (suc k) (f ∷ l) (a, d) = elim (Bool-cases (leb (amount f) (amount x))) [
    | inl c ↦ rw c (before k (ground arith))
    | inr c ↦ rw c (omega (arith, take-insert-skip x k l d))
  ]
    where
      before :
          (k : ℕ)
          → amount f ≤ amount x
          → amount f + total (take k l) ≤ amount x + total (take k (f ∷ l))
      before zero h = omega arith
      before (suc k) h = omega (arith, take-suc_le (amount f) k l a)

  take-insert-keep :
      (x : Entry) (k : ℕ) (l : List Entry)
      → amount x + total (take k l) ≤ total (take (suc k) (insert amount x l))
  unfolding insert
  take-insert-keep x zero [] = omega arith
  take-insert-keep x (suc k) [] = omega arith
  take-insert-keep x zero (f ∷ l) = ground arith
  take-insert-keep x (suc k) (f ∷ l) = ground (arith, take-insert-keep x k l)

  -- The front of the sorted list is worth the most.
  pub Choice-le-sort :
      {s xs : List Entry}
      → Choice s xs
      → total s ≤ total (take (length s) (sort_by_amount amount xs))
  unfolding sort_by_amount
  Choice-le-sort nothing = omega arith
  Choice-le-sort (keep a {s = s} {xs = xs} c) =
      omega (arith, Choice-le-sort c, take-insert-keep a (length s) (sort_by_amount amount xs))
  Choice-le-sort (skip a {s = s} {xs = xs} c) = omega (
    arith,
    Choice-le-sort c,
    take-insert-skip a (length s) (sort_by_amount amount xs) (sort-IsDescending xs),
  )

  pub length-Choice : {s xs : List Entry} → Choice s xs → length s ≤ length xs
  length-Choice nothing = omega arith
  length-Choice (keep a c) = omega (arith, length-Choice c)
  length-Choice (skip a c) = omega (arith, length-Choice c)

  insert-Permᴰ : (x : Entry) (l : List Entry) → Permᴰ (x ∷ l) (insert amount x l)
  unfolding insert
  insert-Permᴰ x [] = Permᴰ.refl (x ∷ [])
  insert-Permᴰ x (f ∷ l) = elim (Bool-cases (leb (amount f) (amount x))) [
    | inl c ↦ rw c (Permᴰ.refl (x ∷ f ∷ l))
    | inr c ↦ rw c (Permᴰ.trans (Permᴰ.swap refl refl) (Permᴰ.cons refl (insert-Permᴰ x l)))
  ]

  -- Sorting keeps the entries.
  pub sort_by_amount-Permᴰ : (xs : List Entry) → Permᴰ xs (sort_by_amount amount xs)
  unfolding sort_by_amount
  sort_by_amount-Permᴰ [] = Permᴰ.nil
  sort_by_amount-Permᴰ (x ∷ xs) =
      Permᴰ.trans (Permᴰ.cons refl (sort_by_amount-Permᴰ xs))
        (insert-Permᴰ x (sort_by_amount amount xs))

  AtMost-append_right : (m : ℕ) (front back : List Entry) → AtMost m (front ++ back) → AtMost m back
  AtMost-append_right m [] back a = a
  AtMost-append_right m (x ∷ front) back (ax, a) = AtMost-append_right m front back a

  -- What stands behind is at most each of what stands in front.
  pub IsDescending-append :
      (front back : List Entry)
      → IsDescending (front ++ back)
      → All (λ e. AtMost (amount e) back) front
  IsDescending-append [] back d = tt
  IsDescending-append (x ∷ front) back (a, d) =
      (AtMost-append_right (amount x) front back a, IsDescending-append front back d)
