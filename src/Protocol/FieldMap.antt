-- ===== src/Protocol/FieldMap.antt =====
-- `BTreeMap<u8, Value>` of protocol/src/lib.rs: an association list in ascending key order.
pub mod Kept
pub mod Swap
use komms_cli.Base.{
  ℕ, suc, List, [], ◌∷◌, ◌++◌, Option, none, some, if◌then◌else◌, ltb, leb, ◌==◌, ◌≡◌, ◌<◌, ◌≤◌,
  refl, arith,
}

abbrev pub FieldMap : Type 0 → Type 0
FieldMap Value = List (ℕ × Value)

module _ {Value : Type 0} where
  -- The value that the key had, and the new map.
  unfoldable pub insert : ℕ → Value → FieldMap Value → Option Value × FieldMap Value
  insert k v [] = (none, (k, v) ∷ [])
  insert k v ((j, w) ∷ m) =
      let rest = insert k v m in
      if ltb k j
      then (none, (k, v) ∷ (j, w) ∷ m)
      else if k == j
      then (some w, (k, v) ∷ m)
      else (rest.0, (j, w) ∷ rest.1)

  unfoldable pub remove : ℕ → FieldMap Value → Option Value × FieldMap Value
  remove k [] = (none, [])
  remove k ((j, w) ∷ m) =
      let rest = remove k m in if k == j then (some w, m) else (rest.0, (j, w) ∷ rest.1)

  -- The entries with a key from `key_min` on, and the others.
  unfoldable pub split_from : ℕ → FieldMap Value → FieldMap Value × FieldMap Value
  split_from key_min [] = ([], [])
  split_from key_min ((j, w) ∷ m) =
      let rest = split_from key_min m in
      if leb key_min j then ((j, w) ∷ rest.0, rest.1) else (rest.0, (j, w) ∷ rest.1)

  -- Every key is above `k`.
  abbrev pub Above : ℕ → FieldMap Value → Type 0
  Above k [] = Unit
  Above k ((j, w) ∷ m) = (k < j) × Above k m

  -- The keys ascend, the first at least `k`.
  abbrev pub Ascends : ℕ → FieldMap Value → Type 0
  Ascends k [] = Unit
  Ascends k ((j, w) ∷ m) = (k ≤ j) × Ascends (suc j) m

  -- Every key is below `k`.
  abbrev pub Below : ℕ → FieldMap Value → Type 0
  Below k [] = Unit
  Below k ((j, w) ∷ m) = (j < k) × Below k m

  pub Ascends-weaken : (j k : ℕ) (m : FieldMap Value) → j ≤ k → Ascends k m → Ascends j m
  Ascends-weaken j k [] h a = tt
  Ascends-weaken j k ((i, w) ∷ m) h (le, a) = (omega arith, a)

  pub Above-weaken : (j k : ℕ) (m : FieldMap Value) → j ≤ k → Above k m → Above j m
  Above-weaken j k [] h a = tt
  Above-weaken j k ((i, w) ∷ m) h (lt, a) = (omega arith, Above-weaken j k m h a)

  pub Below-weaken : (j k : ℕ) (m : FieldMap Value) → j ≤ k → Below j m → Below k m
  Below-weaken j k [] h a = tt
  Below-weaken j k ((i, w) ∷ m) h (lt, a) = (omega arith, Below-weaken j k m h a)

  pub Above-Ascends : (k : ℕ) (m : FieldMap Value) → Ascends (suc k) m → Above k m
  Above-Ascends k [] h = tt
  Above-Ascends k ((j, w) ∷ m) (h, a) = (h, Above-weaken k j m (omega arith) (Above-Ascends j m a))

  pub Below-append :
      (k j : ℕ) (w : Value) (m : FieldMap Value) → j < k → Below k m → Below k (m ++ (j, w) ∷ [])
  Below-append k j w [] h b = (h, tt)
  Below-append k j w ((i, x) ∷ m) h (lt, b) = (lt, Below-append k j w m h b)

  -- A key above all others goes to the end.
  pub insert-Below :
      (k : ℕ) (v : Value) (m : FieldMap Value) → Below k m → insert k v m ≡ (none, m ++ (k, v) ∷ [])
  unfolding insert
  insert-Below k v [] h = refl
  insert-Below k v ((j, w) ∷ m) (lt, h) = ground (arith, insert-Below k v m h)

  pub remove-Above : (k : ℕ) (m : FieldMap Value) → Above k m → remove k m ≡ (none, m)
  unfolding remove
  remove-Above k [] h = refl
  remove-Above k ((j, w) ∷ m) (h, a) = ground (arith, remove-Above k m a)

  pub split_from-Above :
      (key_min k : ℕ) (m : FieldMap Value)
      → key_min ≤ suc k
      → Above k m
      → split_from key_min m ≡ (m, [])
  unfolding split_from
  split_from-Above key_min k [] h a = refl
  split_from-Above key_min k ((j, w) ∷ m) h (lt, a) =
      ground (arith, split_from-Above key_min k m h a)
