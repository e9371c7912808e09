-- ===== src/Crypto/StateHash/Order.antt =====
-- The sort by transaction id does not depend on the order of its input.
use komms_cli.Base.{
  lex_le, lex_le_total, lex_le_antisym, lex_le_trans, ℕ, suc, ◌≡◌, refl, sym, ap, ◌∙◌, List, [],
  ◌∷◌, true, false, length, All, Bool-cases, inl, inr,
}
use mathlib.Core.List.{Permᴰ, Perm}
use mathlib.Core.Logic.{∥∥₁_elim}
use komms_cli.Base.{subst}
use komms_cli.Crypto.StateHash.Defs.{
  ProjectedEvent, insert, sort_by_tx_id, event_array, state_hash_next,
}

insert_same :
    (x y : ProjectedEvent) (l : List ProjectedEvent)
    → x ≡ y
    → insert x (insert y l) ≡ insert y (insert x l)
insert_same x y l e = cc e

insert_le :
    (x f : ProjectedEvent) (l : List ProjectedEvent)
    → lex_le x.tx_id f.tx_id ≡ true
    → insert x (f ∷ l) ≡ x ∷ f ∷ l
unfolding insert
insert_le x f l h = rw h refl

insert_gt :
    (x f : ProjectedEvent) (l : List ProjectedEvent)
    → lex_le x.tx_id f.tx_id ≡ false
    → insert x (f ∷ l) ≡ f ∷ insert x l
unfolding insert
insert_gt x f l h = rw h refl

insert_nil : (x : ProjectedEvent) → insert x [] ≡ x ∷ []
unfolding insert
insert_nil x = refl

-- The strict case, where `x` goes before `y`.
insert_strict :
    (x y : ProjectedEvent) (l : List ProjectedEvent)
    → lex_le x.tx_id y.tx_id ≡ true
    → lex_le y.tx_id x.tx_id ≡ false
    → insert x (insert y l) ≡ insert y (insert x l)
insert_strict x y [] h k =
    rw (insert_nil y, insert_nil x, insert_le x y [] h, insert_gt y x [] k, insert_nil y) refl
insert_strict x y (f ∷ l) h k = elim (Bool-cases (lex_le y.tx_id f.tx_id)) [
  | inl m ↦
      let n = lex_le_trans x.tx_id y.tx_id f.tx_id h m in
      rw
        (
          insert_le y f l m,
          insert_le x f l n,
          insert_le x y (f ∷ l) h,
          insert_gt y x (f ∷ l) k,
          insert_le y f l m,
        )
        refl
  | inr m ↦ elim (Bool-cases (lex_le x.tx_id f.tx_id)) [
    | inl n ↦
        rw
          (
            insert_gt y f l m,
            insert_le x f l n,
            insert_le x f (insert y l) n,
            insert_gt y x (f ∷ l) k,
            insert_gt y f l m,
          )
          refl
    | inr n ↦
        rw
          (
            insert_gt y f l m,
            insert_gt x f l n,
            insert_gt x f (insert y l) n,
            insert_gt y f (insert x l) m,
            insert_strict x y l h k,
          )
          refl
  ]
]

insert_comm :
    (x y : ProjectedEvent) (l : List ProjectedEvent)
    → (x.tx_id ≡ y.tx_id → x ≡ y)
    → insert x (insert y l) ≡ insert y (insert x l)
insert_comm x y l same = elim (Bool-cases (lex_le x.tx_id y.tx_id)) [
  | inl h ↦ elim (Bool-cases (lex_le y.tx_id x.tx_id)) [
    | inl k ↦ insert_same x y l (same (lex_le_antisym _ _ h k))
    | inr k ↦ insert_strict x y l h k
  ]
  | inr h ↦ sym (insert_strict y x l (lex_le_total _ _ h) h)
]

-- Each event is the one that `body` gives for its transaction id.
abbrev pub IsProjection : (List ℕ → List ℕ) → List ProjectedEvent → Type 0
IsProjection body = All (λ e. e.canonical_cbor ≡ body e.tx_id)

same_projection :
    (body : List ℕ → List ℕ) (x y : ProjectedEvent)
    → x.canonical_cbor ≡ body x.tx_id
    → y.canonical_cbor ≡ body y.tx_id
    → x.tx_id ≡ y.tx_id
    → x ≡ y
same_projection body x y hx hy e =
    let same : x.canonical_cbor ≡ y.canonical_cbor = cc (hx, hy, e) in
    λ i. record { tx_id = e i; canonical_cbor = same i }

sort-Permᴰ :
    (body : List ℕ → List ℕ) (xs ys : List ProjectedEvent)
    → Permᴰ xs ys
    → IsProjection body xs
    → (sort_by_tx_id xs ≡ sort_by_tx_id ys) × (length xs ≡ length ys) × IsProjection body ys
unfolding sort_by_tx_id
sort-Permᴰ body _ _ Permᴰ.nil h = (refl, refl, tt)
sort-Permᴰ body _ _ (Permᴰ.cons {a = a} {b = b} {l₁ = l₁} {l₂ = l₂} e d) (ha, h) =
    let (s, n, k) = sort-Permᴰ body l₁ l₂ d h in
    (
      ap (insert a) s ∙ ap (λ x. insert x (sort_by_tx_id l₂)) e,
      ap suc n,
      (subst (λ x. x.canonical_cbor ≡ body x.tx_id) e ha, k),
    )
sort-Permᴰ body _ _ (Permᴰ.swap {a = a} {b = b} {a' = a'} {b' = b'} {l = l} e₁ e₂) (ha, (hb, h)) =
    let commuted = insert_comm a b (sort_by_tx_id l) (same_projection body a b ha hb) in
    let step : insert b (insert a (sort_by_tx_id l)) ≡ insert a' (insert b' (sort_by_tx_id l)) =
      cc (e₁, e₂) in
    (
      commuted ∙ step,
      refl,
      (
        subst (λ x. x.canonical_cbor ≡ body x.tx_id) e₂ hb,
        (subst (λ x. x.canonical_cbor ≡ body x.tx_id) e₁ ha, h),
      ),
    )
sort-Permᴰ body _ _ (Permᴰ.trans {l₁ = l₁} {l₂ = l₂} {l₃ = l₃} p q) h =
    let (s, n, k) = sort-Permᴰ body l₁ l₂ p h in
    let (s', n', k') = sort-Permᴰ body l₂ l₃ q k in (s ∙ s', n ∙ n', k')

-- The cumulative state hash does not depend on the order in which the events of a block come, if the
-- transaction id of an event determines its projection.
pub state_hash_next-Perm :
    (blake : List ℕ → List ℕ) (body : List ℕ → List ℕ) (prior : List ℕ)
    (xs ys : List ProjectedEvent)
    → IsProjection body xs
    → Perm xs ys
    → state_hash_next blake prior xs ≡ state_hash_next blake prior ys
unfolding state_hash_next event_array
state_hash_next-Perm blake body prior xs ys h p =
    let prop : IsProp (state_hash_next blake prior xs ≡ state_hash_next blake prior ys) = hlevel in
    ∥∥₁_elim p prop (λ d. let (s, n, k) = sort-Permᴰ body xs ys d h in rw (s, n) refl)
