-- ===== src/Protocol/RoundTrip/Pushed.antt =====
-- The pairs that the encoder pushes, as a map: taking a key out of it, its order and its bound.
use komms_cli.Base.{ℕ, suc, List, [], ◌∷◌, ◌++◌, Option, none, some, ◌≡◌, ◌≢◌, ◌≤◌, arith}
use komms_cli.Protocol.FieldMap.{
  FieldMap, remove, Above, Ascends, Below, Ascends-weaken, remove-Above,
}
use komms_cli.Protocol.Encode.{pushed}

abbrev pub Slots : Type 0 → Type 0
Slots Value = List (ℕ × Option Value)

module _ {Value : Type 0} where
  -- No slot has the key `k`.
  abbrev pub Lacks : ℕ → Slots Value → Type 0
  Lacks k [] = Unit
  Lacks k ((j, o) ∷ slots) = (k ≢ j) × Lacks k slots

  -- The keys ascend from `lo`, and end below `hi`.
  abbrev pub Between : ℕ → Slots Value → ℕ → Type 0
  Between lo [] hi = lo ≤ hi
  Between lo ((k, o) ∷ slots) hi = (lo ≤ k) × Between (suc k) slots hi

  remove-Lacks :
      (k : ℕ) (slots : Slots Value) (m : FieldMap Value)
      → Lacks k slots
      → Above k m
      → remove k (pushed slots ++ m) ≡ (none, pushed slots ++ m)
  unfolding pushed remove
  remove-Lacks k [] m l a = remove-Above k m a
  remove-Lacks k ((j, none) ∷ slots) m (h, l) a = remove-Lacks k slots m l a
  remove-Lacks k ((j, some v) ∷ slots) m (h, l) a = ground (arith, remove-Lacks k slots m l a)

  -- Taking a slot's key out of the map gives what the slot holds.
  pub remove-pushed :
      (k : ℕ) (before : Slots Value) (o : Option Value) (after : Slots Value) (m : FieldMap Value)
      → Lacks k before
      → Lacks k after
      → Above k m
      → remove k (pushed (before ++ (k, o) ∷ after) ++ m) ≡ (o, pushed (before ++ after) ++ m)
  unfolding pushed remove
  remove-pushed k [] none after m l r a = remove-Lacks k after m r a
  remove-pushed k [] (some v) after m l r a = ground arith
  remove-pushed k ((j, none) ∷ before) o after m (h, l) r a = remove-pushed k before o after m l r a
  remove-pushed k ((j, some v) ∷ before) o after m (h, l) r a =
      ground (arith, remove-pushed k before o after m l r a)

  pub Ascends-pushed :
      (lo hi : ℕ) (slots : Slots Value) (m : FieldMap Value)
      → Between lo slots hi
      → Ascends hi m
      → Ascends lo (pushed slots ++ m)
  unfolding pushed
  Ascends-pushed lo hi [] m b a = Ascends-weaken lo hi m b a
  Ascends-pushed lo hi ((k, none) ∷ slots) m (h, b) a =
      Ascends-weaken lo (suc k) _ (omega arith) (Ascends-pushed (suc k) hi slots m b a)
  Ascends-pushed lo hi ((k, some v) ∷ slots) m (h, b) a = (h, Ascends-pushed (suc k) hi slots m b a)

  pub Below-pushed :
      (lo hi bound : ℕ) (slots : Slots Value) (m : FieldMap Value)
      → Between lo slots hi
      → hi ≤ bound
      → Below bound m
      → Below bound (pushed slots ++ m)
  unfolding pushed
  Below-pushed lo hi bound [] m b h a = a
  Below-pushed lo hi bound ((k, none) ∷ slots) m (l, b) h a =
      Below-pushed (suc k) hi bound slots m b h a
  Below-pushed lo hi bound ((k, some v) ∷ slots) m (l, b) h a =
      (omega (arith, Between-le (suc k) hi slots b), Below-pushed (suc k) hi bound slots m b h a)
    where
      Between-le : (x y : ℕ) (s : Slots Value) → Between x s y → x ≤ y
      Between-le x y [] c = c
      Between-le x y ((i, o) ∷ s) (c, d) = omega (arith, Between-le (suc i) y s d)
