-- ===== src/FlatTree/Range.antt =====
-- The insertion of a range of values (flat_tree.h).
use tqlib.Prelude.{
  ℕ, zero, suc, ◌-◌, ◌≤◌, ◌≡◌, ◌⊎◌, refl, sym, ◌∙◌, ap, inl, inr, Bool, true, false, not, none,
  some, List, [], ◌∷◌, ◌++◌, arith, append-nil, append_assoc, if◌then◌else◌, min, Bool-cases,
  length, take, drop, All,
}
use tqlib.FlatTree.{is_absent, append_each}
use tqlib.FlatTree.Algorithms.{lower_bound, remove_if}
use tqlib.FlatTree.Sorted.{IsStrictWeak, equiv, equiv_trans, equiv_sym, lookup, IsSorted}
use tqlib.FlatTree.Search.{finds}

module _ {ℓ} {A : Type ℓ} where
  pub take-left : (xs ys : List A) → take (length xs) (xs ++ ys) ≡ xs
  take-left [] ys = refl
  take-left (x ∷ xs) ys = ap (λ r. x ∷ r) (take-left xs ys)

  pub drop-left : (xs ys : List A) → drop (length xs) (xs ++ ys) ≡ ys
  drop-left [] ys = refl
  drop-left (x ∷ xs) ys = drop-left xs ys

  pub take-append : (n : ℕ) (xs ys : List A) → n ≤ length xs → take n (xs ++ ys) ≡ take n xs
  take-append zero xs ys h = refl
  take-append (suc n) [] ys h = absurd (omega arith)
  take-append (suc n) (x ∷ xs) ys h = ap (λ r. x ∷ r) (take-append n xs ys (omega arith))

  pub take_rest :
      (n : ℕ) (xs ys : List A)
      → n ≤ length xs
      → take (length xs - n) (drop n (xs ++ ys)) ≡ drop n xs
  take_rest zero xs ys h = ap (λ m. take m (xs ++ ys)) (omega arith) ∙ take-left xs ys
  take_rest (suc n) [] ys h = absurd (omega arith)
  take_rest (suc n) (x ∷ xs) ys h =
      ap (λ m. take m (drop n (xs ++ ys))) (omega arith) ∙ take_rest n xs ys (omega arith)

module _ {A B : Type 0} (R : A → B → Type 0) where
  All-true : (ys : List B) → All (λ y. All (λ x. R x y) []) ys
  All-true [] = tt
  All-true (y ∷ ys) = (tt, All-true ys)

  All-cons :
      (x : A) (xs : List A) (ys : List B)
      → All (λ y. R x y × All (λ z. R z y) xs) ys
      → All (λ y. R x y) ys × All (λ y. All (λ z. R z y) xs) ys
  All-cons x xs [] h = (tt, tt)
  All-cons x xs (y ∷ ys) ((p, q), h) = let (a, b) = All-cons x xs ys h in ((p, a), (q, b))

  -- A relation between all pairs, from either side.
  pub All-swap :
      (xs : List A) (ys : List B)
      → All (λ y. All (λ x. R x y) xs) ys
      → All (λ x. All (λ y. R x y) ys) xs
  All-swap [] ys h = tt
  All-swap (x ∷ xs) ys h = let (a, b) = All-cons x xs ys h in (a, All-swap xs ys b)

module _ {K V : Type 0} {lt : K → K → Bool} (o : IsStrictWeak lt) (key : V → K) where
  -- Whether the body has no value of a value's key, as the code tests it.
  unfoldable pub is_old : List V → V → Bool
  is_old base v = not (is_absent lt key (key v) (lower_bound lt key (key v) base) base)

  unfoldable pub first_place : List V → List V → ℕ → ℕ
  unfolding is_old
  first_place base [] pos = pos
  first_place base (v ∷ vs) pos =
      first_place base vs (if is_old base v then pos else min pos (lower_bound lt key (key v) base))

  -- The loop appends the values whose keys are new, in their order.
  pub append_each_lem :
      (base acc vs : List V) (pos : ℕ)
      → append_each lt key (length base) vs (pos, base ++ acc)
        ≡ (first_place base vs pos, base ++ (acc ++ remove_if (is_old base) vs))
  unfolding append_each first_place remove_if
  append_each_lem base acc [] pos = rw (append-nil acc) refl
  append_each_lem base acc (v ∷ vs) pos =
      elim (Bool-cases (is_absent lt key (key v) (lower_bound lt key (key v) base) base)) [
        | inl a ↦
            rw (take-left base acc, a)
              (rw (append_assoc base acc (v ∷ [])) (
                append_each_lem base (acc ++ v ∷ []) vs _
                ∙ ap
                    (λ r.
                      (first_place base vs (min pos (lower_bound lt key (key v) base)), base ++ r))
                    (append_assoc acc (v ∷ []) _)))
        | inr a ↦ rw (take-left base acc, a) (append_each_lem base acc vs pos)
      ]

  pub first_place-le : (base vs : List V) (pos : ℕ) → first_place base vs pos ≤ pos
  unfolding first_place
  first_place-le base [] pos = omega arith
  first_place-le base (v ∷ vs) pos = elim (Bool-cases (is_old base v)) [
    | inl a ↦ rw a (first_place-le base vs pos)
    | inr a ↦
        rw a (omega (arith, first_place-le base vs (min pos (lower_bound lt key (key v) base))))
  ]

  pub first_place-All :
      (base vs : List V) (pos : ℕ)
      → All
          (λ v. first_place base vs pos ≤ lower_bound lt key (key v) base)
          (remove_if (is_old base) vs)
  unfolding first_place remove_if
  first_place-All base [] pos = tt
  first_place-All base (v ∷ vs) pos = elim (Bool-cases (is_old base v)) [
    | inl a ↦ rw a (first_place-All base vs pos)
    | inr a ↦ rw a (
      omega (arith, first_place-le base vs (min pos (lower_bound lt key (key v) base))),
      first_place-All base vs (min pos (lower_bound lt key (key v) base)),
    )
  ]

  pub take-less :
      (k : K) (n : ℕ) (s : List V)
      → n ≤ lower_bound lt key k s
      → All (λ e. lt (key e) k ≡ true) (take n s)
  unfolding lower_bound
  take-less k zero s h = tt
  take-less k (suc n) [] h = tt
  take-less k (suc n) (e ∷ s) h = elim (Bool-cases (lt (key e) k)) [
    | inl a ↦ (a, take-less k n s (omega (arith, rw a at h)))
    | inr a ↦ absurd (omega (arith, rw a at h))
  ]

  lookup-equiv :
      (k j : K) (s : List V) → equiv lt k j ≡ true → lookup lt key k s ≡ lookup lt key j s
  lookup-equiv k j [] q = refl
  lookup-equiv k j (e ∷ s) q = rw (equiv_same k j (key e) q, lookup-equiv k j s q) refl
    where
      equiv_same : (k j l : K) → equiv lt k j ≡ true → equiv lt k l ≡ equiv lt j l
      equiv_same k j l q = elim (Bool-cases (equiv lt k l)) [
        | inl a ↦ a ∙ sym (equiv_trans o j k l (equiv_sym o j k ∙ q) a)
        | inr a ↦ elim (Bool-cases (equiv lt j l)) [
          | inl b ↦ absurd (ground (arith, equiv_trans o k j l q b, a))
          | inr b ↦ a ∙ sym b
        ]
      ]

  -- A value whose key the body has.
  lookup-old :
      (base : List V) (v : V)
      → IsSorted lt key base
      → (is_old base v ≡ true) × ((e : V) × (lookup lt key (key v) base ≡ some e))
        ⊎ ((is_old base v ≡ false) × (lookup lt key (key v) base ≡ none))
  unfolding is_old
  lookup-old base v h = elim (finds o key (key v) base h) [
    | inl (a, e) ↦ inr (rw a refl, e)
    | inr (a, (e, here, q)) ↦ inl (rw a refl, (e, q))
  ]

  pub lookup-news :
      (k : K) (base vs : List V)
      → IsSorted lt key base
      → lookup lt key k base ≡ none
      → lookup lt key k (remove_if (is_old base) vs) ≡ lookup lt key k vs
  unfolding remove_if
  lookup-news k base [] h n = refl
  lookup-news k base (v ∷ vs) h n = elim (lookup-old base v h) [
    | inr (a, e) ↦ rw (a, lookup-news k base vs h n) refl
    | inl (a, (e, q)) ↦ elim (Bool-cases (equiv lt k (key v))) [
      | inl z ↦ absurd (ground (arith, lookup-equiv k (key v) base z, n, q))
      | inr z ↦ rw (a, z) (lookup-news k base vs h n)
    ]
  ]

  pub news-All :
      (base vs : List V)
      → IsSorted lt key base
      → All (λ v. lookup lt key (key v) base ≡ none) (remove_if (is_old base) vs)
  unfolding remove_if
  news-All base [] h = tt
  news-All base (v ∷ vs) h = elim (lookup-old base v h) [
    | inr (a, e) ↦ rw a (e, news-All base vs h)
    | inl (a, w) ↦ rw a (news-All base vs h)
  ]
