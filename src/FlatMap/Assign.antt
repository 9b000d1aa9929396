-- ===== src/FlatMap/Assign.antt =====
-- The operations of flat_map.h as changes to a function from keys to what they are mapped to.
use tqlib.Prelude.{
  ℕ, suc, ◌≡◌, refl, ◌∙◌, ap, inl, inr, Bool, true, false, Option, none, some, List, [], ◌∷◌, arith,
  if◌then◌else◌, Bool-cases, get_elem?, All, All-imp, Option-cases,
}
use tqlib.FlatTree.{is_absent, emplace_key_args}
use tqlib.FlatTree.Algorithms.{lower_bound}
use tqlib.FlatTree.Sorted.{
  IsStrictWeak, equiv, IsSorted, lt_trans, lt_of_equiv_left, equiv_intro, equiv_parts, equiv_trans,
}
use tqlib.FlatTree.Search.{not_equiv}
use tqlib.FlatMap.{get_first, assign_second, subscript, insert_or_assign}

module _ {K M : Type 0} (lt : K → K → Bool) where
  -- The abstract view: what a key is mapped to.
  abbrev pub mapped : K → List (K × M) → Option M
  mapped k [] = none
  mapped k (e ∷ s) = if equiv lt k e.0 then some e.1 else mapped k s

  -- `insert_or_assign`, by recursion: the key of a pair that is there stays.
  abbrev pub place_pair : K → M → List (K × M) → List (K × M)
  place_pair k m [] = (k, m) ∷ []
  place_pair k m (e ∷ s) =
      if lt e.0 k then e ∷ place_pair k m s else if lt k e.0 then (k, m) ∷ e ∷ s else (e.0, m) ∷ s

  assign_second-cons :
      (i : ℕ) (m : M) (e : K × M) (s : List (K × M))
      → assign_second (suc i) m (e ∷ s) ≡ e ∷ assign_second i m s
  unfolding assign_second
  assign_second-cons i m e s = elim (Option-cases (get_elem? s i)) [
    | inl n ↦ rw (n, assign_second) refl
    | inr (f, n) ↦ rw (n, assign_second) refl
  ]

  assign_second_first :
      (m : M) (e : K × M) (s : List (K × M)) → assign_second 0 m (e ∷ s) ≡ (e.0, m) ∷ s
  unfolding assign_second
  assign_second_first m e s = refl

  pub insert_or_assign-place :
      (k : K) (m : M) (s : List (K × M)) → (insert_or_assign lt k m s).2 ≡ place_pair k m s
  unfolding insert_or_assign emplace_key_args lower_bound
  insert_or_assign-place k m [] = refl
  insert_or_assign-place k m (e ∷ s) = elim (Bool-cases (lt e.0 k)) [
    | inl h ↦ elim (Bool-cases (is_absent lt get_first k (lower_bound lt get_first k s) s)) [
      | inl a ↦ rw (h, a) (ap (λ r. e ∷ r) (rw a at (insert_or_assign-place k m s)))
      | inr a ↦
          rw (h, a)
            (assign_second-cons _ m e s ∙ ap (λ r. e ∷ r) (rw a at (insert_or_assign-place k m s)))
    ]
    | inr h ↦ elim (Bool-cases (lt k e.0)) [
      | inl a ↦ rw (h, a) refl
      | inr a ↦ rw (h, a) (assign_second_first m e s)
    ]
  ]

  pub subscript-place :
      (default m : M) (k : K) (s : List (K × M))
      → let (i, body) = subscript lt default k s in assign_second i m body ≡ place_pair k m s
  unfolding subscript lower_bound
  subscript-place default m k [] = assign_second_first m (k, default) []
  subscript-place default m k (e ∷ s) = elim (Bool-cases (lt e.0 k)) [
    | inl h ↦ elim (Bool-cases (is_absent lt get_first k (lower_bound lt get_first k s) s)) [
      | inl a ↦
          rw (h, a)
            (assign_second-cons _ m e _ ∙ ap (λ r. e ∷ r) (rw a at (subscript-place default m k s)))
      | inr a ↦
          rw (h, a)
            (assign_second-cons _ m e s ∙ ap (λ r. e ∷ r) (rw a at (subscript-place default m k s)))
    ]
    | inr h ↦ elim (Bool-cases (lt k e.0)) [
      | inl a ↦ rw (h, a) (assign_second_first m (k, default) (e ∷ s))
      | inr a ↦ rw (h, a) (assign_second_first m e s)
    ]
  ]

module _ {K M : Type 0} {lt : K → K → Bool} (o : IsStrictWeak lt) where
  place_pair-All :
      (P : K → Type 0) (k : K) (m : M) (s : List (K × M))
      → P k
      → All (λ e. P e.0) s
      → All (λ e. P e.0) (place_pair lt k m s)
  place_pair-All P k m [] p h = (p, tt)
  place_pair-All P k m (e ∷ s) p (q, h) = elim (Bool-cases (lt e.0 k)) [
    | inl a ↦ rw a (q, place_pair-All P k m s p h)
    | inr a ↦ elim (Bool-cases (lt k e.0)) [
      | inl b ↦ rw (a, b) (p, (q, h))
      | inr b ↦ rw (a, b) (q, h)
    ]
  ]

  pub place_pair-IsSorted :
      (k : K) (m : M) (s : List (K × M))
      → IsSorted lt get_first s
      → IsSorted lt get_first (place_pair lt k m s)
  place_pair-IsSorted k m [] h = (tt, tt)
  place_pair-IsSorted k m (e ∷ s) (all, h) = elim (Bool-cases (lt e.0 k)) [
    | inl a ↦ rw a (place_pair-All (λ j. lt e.0 j ≡ true) k m s a all, place_pair-IsSorted k m s h)
    | inr a ↦ elim (Bool-cases (lt k e.0)) [
      | inl b ↦ rw (a, b) ((b, All-imp _ _ s (λ f q. lt_trans o k e.0 f.0 b q) all), (all, h))
      | inr b ↦ rw (a, b) (all, h)
    ]
  ]

  pub mapped-place :
      (p k : K) (m : M) (s : List (K × M))
      → IsSorted lt get_first s
      → mapped lt p (place_pair lt k m s) ≡ (if equiv lt p k then some m else mapped lt p s)
  mapped-place p k m [] h = refl
  mapped-place p k m (e ∷ s) (all, h) = elim (Bool-cases (lt e.0 k)) [
    | inl a ↦ elim (Bool-cases (equiv lt p e.0)) [
      | inl q ↦
          rw
            (
              a,
              q,
              not_equiv o (get_first {K = K} {M = M}) p k
                  (lt_of_equiv_left o p e.0 k (equiv_parts o p e.0 q).1 a),
            )
            refl
      | inr q ↦ rw (a, q) (mapped-place p k m s h)
    ]
    | inr a ↦ elim (Bool-cases (lt k e.0)) [
      | inl b ↦ rw (a, b) refl
      | inr b ↦ elim (Bool-cases (equiv lt p k)) [
        | inl q ↦ rw (a, b, q, equiv_trans o p k e.0 q (equiv_intro o k e.0 b a)) refl
        | inr q ↦ rw (a, b, q, apart p k e q (equiv_intro o e.0 k a b)) refl
      ]
    ]
  ]
    where
      apart :
          (p k : K) (e : K × M)
          → equiv lt p k ≡ false
          → equiv lt e.0 k ≡ true
          → equiv lt p e.0 ≡ false
      apart p k e q r = elim (Bool-cases (equiv lt p e.0)) [
        | inr z ↦ z
        | inl z ↦ absurd (ground (arith, equiv_trans o p e.0 k z r, q))
      ]
