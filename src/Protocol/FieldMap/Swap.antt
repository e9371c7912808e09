-- ===== src/Protocol/FieldMap/Swap.antt =====
-- Two entries whose keys are both new go into a `BTreeMap<u8, Value>` in either order.
use komms_cli.Base.{ℕ, [], ◌∷◌, none, ◌≡◌, refl, Bool-cases, inl, inr, ltb, arith}
use komms_cli.Protocol.FieldMap.{FieldMap, insert}

module _ {Value : Type 0} where
  pub record Swaps (j k : ℕ) (v w : Value) (m : FieldMap Value) : Type 0 where
    pub new_first : (insert k w m).0 ≡ none
    pub new_then : (insert j v (insert k w m).1).0 ≡ none
    pub same_map : (insert k w (insert j v m).1).1 ≡ (insert j v (insert k w m).1).1

  pub insert-Swaps :
      (j k : ℕ) (v w : Value) (m : FieldMap Value)
      → (insert j v m).0 ≡ none
      → (insert k w (insert j v m).1).0 ≡ none
      → Swaps j k v w m
  unfolding insert
  insert-Swaps j k v w [] h g = record {
    new_first = refl;
    new_then = ground (arith, h, g);
    same_map = ground (arith, h, g);
  }
  insert-Swaps j k v w ((i, x) ∷ m) h g = elim (Bool-cases (ltb i j)) [
    | inr e ↦ record {
      new_first = ground (arith, e, h, g);
      new_then = ground (arith, e, h, g);
      same_map = ground (arith, e, h, g);
    }
    | inl e ↦ elim (Bool-cases (ltb i k)) [
      | inr f ↦ record {
        new_first = ground (arith, e, f, h, g);
        new_then = ground (arith, e, f, h, g);
        same_map = ground (arith, e, f, h, g);
      }
      | inl f ↦
          let rest = insert-Swaps j k v w m (ground (arith, e, h)) (ground (arith, e, f, h, g)) in
          record {
            new_first = ground (arith, e, f, rest.new_first);
            new_then = ground (arith, e, f, rest.new_then);
            same_map = ground (arith, e, f, rest.same_map);
          }
    ]
  ]
