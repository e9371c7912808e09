-- ===== src/Protocol/FieldMap/Kept.antt =====
-- What the operations of `BTreeMap<u8, Value>` keep: ascending keys, and keys that are u8.
use komms_cli.Base.{ℕ, suc, [], ◌∷◌, ◌≤◌, ◌<◌, Bool-cases, inl, inr, leb, ltb, ◌==◌, arith}
use komms_cli.Protocol.FieldMap.{
  FieldMap, insert, remove, split_from, Ascends, Below, Ascends-weaken,
}

module _ {Value : Type 0} where
  -- A map over the keys from 0 to 255.
  pub record IsMap (m : FieldMap Value) : Type 0 where
    pub ascends : Ascends 0 m
    pub below : Below 256 m

  Ascends-remove : (lo k : ℕ) (m : FieldMap Value) → Ascends lo m → Ascends lo (remove k m).1
  unfolding remove
  Ascends-remove lo k [] a = tt
  Ascends-remove lo k ((j, w) ∷ m) (h, a) = elim (Bool-cases (k == j)) [
    | inl e ↦ rw e (Ascends-weaken lo (suc j) m (omega arith) a)
    | inr e ↦ rw e (h, Ascends-remove (suc j) k m a)
  ]

  Below-remove : (hi k : ℕ) (m : FieldMap Value) → Below hi m → Below hi (remove k m).1
  unfolding remove
  Below-remove hi k [] b = tt
  Below-remove hi k ((j, w) ∷ m) (h, b) = elim (Bool-cases (k == j)) [
    | inl e ↦ rw e b
    | inr e ↦ rw e (h, Below-remove hi k m b)
  ]

  pub IsMap-remove : (k : ℕ) (m : FieldMap Value) → IsMap m → IsMap (remove k m).1
  IsMap-remove k m i = record {
    ascends = Ascends-remove 0 k m i.ascends;
    below = Below-remove 256 k m i.below;
  }

  Ascends-insert :
      (lo k : ℕ) (v : Value) (m : FieldMap Value)
      → lo ≤ k
      → Ascends lo m
      → Ascends lo (insert k v m).1
  unfolding insert
  Ascends-insert lo k v [] l a = (l, tt)
  Ascends-insert lo k v ((j, w) ∷ m) l (h, a) = elim (Bool-cases (ltb k j)) [
    | inl e ↦ rw e (l, (ground arith, a))
    | inr e ↦ elim (Bool-cases (k == j)) [
      | inl f ↦ rw (e, f) (l, Ascends-weaken (suc k) (suc j) m (ground arith) a)
      | inr f ↦ rw (e, f) (h, Ascends-insert (suc j) k v m (ground arith) a)
    ]
  ]

  Below-insert :
      (hi k : ℕ) (v : Value) (m : FieldMap Value) → k < hi → Below hi m → Below hi (insert k v m).1
  unfolding insert
  Below-insert hi k v [] l b = (l, tt)
  Below-insert hi k v ((j, w) ∷ m) l (h, b) = elim (Bool-cases (ltb k j)) [
    | inl e ↦ rw e (l, (h, b))
    | inr e ↦ elim (Bool-cases (k == j)) [
      | inl f ↦ rw (e, f) (l, b)
      | inr f ↦ rw (e, f) (h, Below-insert hi k v m l b)
    ]
  ]

  pub IsMap-insert :
      (k : ℕ) (v : Value) (m : FieldMap Value) → k < 256 → IsMap m → IsMap (insert k v m).1
  IsMap-insert k v m h i = record {
    ascends = Ascends-insert 0 k v m (omega arith) i.ascends;
    below = Below-insert 256 k v m h i.below;
  }

  Ascends-split_from :
      (lo key_min : ℕ) (m : FieldMap Value) → Ascends lo m → Ascends lo (split_from key_min m).0
  unfolding split_from
  Ascends-split_from lo key_min [] a = tt
  Ascends-split_from lo key_min ((j, w) ∷ m) (h, a) =
      let rest = Ascends-split_from (suc j) key_min m a in
      elim (Bool-cases (leb key_min j)) [
        | inl e ↦ rw e (h, rest)
        | inr e ↦ rw e (Ascends-weaken lo (suc j) _ (omega arith) rest)
      ]

  -- The first part has no key below the bound.
  pub split_from-Ascends :
      (lo key_min : ℕ) (m : FieldMap Value)
      → Ascends lo m
      → Ascends key_min (split_from key_min m).0
  unfolding split_from
  split_from-Ascends lo key_min [] a = tt
  split_from-Ascends lo key_min ((j, w) ∷ m) (h, a) = elim (Bool-cases (leb key_min j)) [
    | inl e ↦ rw e (ground arith, Ascends-split_from (suc j) key_min m a)
    | inr e ↦ rw e (split_from-Ascends (suc j) key_min m a)
  ]

  pub split_from-Below :
      (hi key_min : ℕ) (m : FieldMap Value) → Below hi m → Below hi (split_from key_min m).0
  unfolding split_from
  split_from-Below hi key_min [] b = tt
  split_from-Below hi key_min ((j, w) ∷ m) (h, b) = elim (Bool-cases (leb key_min j)) [
    | inl e ↦ rw e (h, split_from-Below hi key_min m b)
    | inr e ↦ rw e (split_from-Below hi key_min m b)
  ]
