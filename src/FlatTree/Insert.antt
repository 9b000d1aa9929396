-- ===== src/FlatTree/Insert.antt =====
-- Insertion with a hint, and insertion that overwrites (flat_tree.h).
use tqlib.Prelude.{
  ℕ, zero, suc, ◌≤◌, ◌≡◌, refl, ◌∙◌, ap, inl, inr, Bool, true, false, Option, none, some,
  Option-cases, List, [], ◌∷◌, arith, if◌then◌else◌, Bool-cases, length, get_elem?, All, All-imp,
}
use tqlib.FlatTree.{
  is_absent, is_after, emplace_key_args, emplace_hint_key_args, insert_or_assign, unsafe_emplace,
}
use tqlib.FlatTree.Algorithms.{lower_bound}
use tqlib.FlatTree.Sorted.{
  IsStrictWeak, equiv, lookup, IsSorted, lt_trans, lt_of_equiv_left, equiv_intro, equiv_trans,
  equiv_parts,
}
use tqlib.FlatTree.Search.{not_equiv}

module _ {V : Type 0} (P : V → Type 0) where
  All-get_elem? : (s : List V) (i : ℕ) (e : V) → All P s → get_elem? s i ≡ some e → P e
  All-get_elem? [] i e h q = cc
  All-get_elem? (f ∷ s) zero e (p, h) q = ground (arith, p)
  All-get_elem? (f ∷ s) (suc i) e (p, h) q = All-get_elem? s i e h q

module _ {K V : Type 0} {lt : K → K → Bool} (o : IsStrictWeak lt) (key : V → K) where
  -- The value at an index is not less than a key, or the index is end().
  abbrev NotLess : K → ℕ → List V → Type 0
  NotLess k i s = (e : V) → get_elem? s i ≡ some e → lt (key e) k ≡ false

  -- A sorted body that has a smaller value before an index has only smaller ones there.
  first_less :
      (k : K) (i : ℕ) (e : V) (s : List V)
      → IsSorted lt key (e ∷ s)
      → is_after lt key k (suc i) (e ∷ s) ≡ true
      → lt (key e) k ≡ true
  unfolding is_after
  first_less k zero e s h q = q
  first_less k (suc i) e s (all, h) q = elim (Option-cases (get_elem? s i)) [
    | inl n ↦ absurd (ground (arith, n, q))
    | inr (f, n) ↦
        lt_trans o (key e) (key f) k (All-get_elem? _ s i f all n) (rw (n, is_after) at q)
  ]

  lower_bound_at :
      (k : K) (i : ℕ) (s : List V)
      → IsSorted lt key s
      → i ≤ length s
      → is_after lt key k i s ≡ true
      → NotLess k i s
      → lower_bound lt key k s ≡ i
  unfolding lower_bound is_after
  lower_bound_at k zero [] h p q n = refl
  lower_bound_at k zero (e ∷ s) h p q n = rw (n e refl) refl
  lower_bound_at k (suc i) [] h p q n = absurd (omega arith)
  lower_bound_at k (suc i) (e ∷ s) h p q n =
      rw (first_less k i e s h q) (ap suc (lower_bound_at k i s h.1 (omega arith) (later i q) n))
    where
      later : (i : ℕ) → is_after lt key k (suc i) (e ∷ s) ≡ true → is_after lt key k i s ≡ true
      later zero r = refl
      later (suc j) r = r

  absent_end : (k : K) (i : ℕ) (s : List V) → get_elem? s i ≡ none → is_absent lt key k i s ≡ true
  unfolding is_absent
  absent_end k i s n = rw (n, is_absent) refl

  absent_at :
      (k : K) (i : ℕ) (e : V) (s : List V)
      → get_elem? s i ≡ some e
      → is_absent lt key k i s ≡ lt k (key e)
  unfolding is_absent
  absent_at k i e s n = rw (n, is_absent) refl

  emplace_new :
      (k : K) (v : V) (i : ℕ) (s : List V)
      → lower_bound lt key k s ≡ i
      → is_absent lt key k i s ≡ true
      → emplace_key_args lt key k v s ≡ (i, true, unsafe_emplace lt key i v s)
  unfolding emplace_key_args
  emplace_new k v i s e a = rw (e, a) refl

  emplace_old :
      (k : K) (v : V) (i : ℕ) (s : List V)
      → lower_bound lt key k s ≡ i
      → is_absent lt key k i s ≡ false
      → emplace_key_args lt key k v s ≡ (i, false, s)
  unfolding emplace_key_args
  emplace_old k v i s e a = rw (e, a) refl

  not_less : (k : K) (f e : V) → f ≡ e → lt (key e) k ≡ false → lt (key f) k ≡ false
  not_less k f e q h = rw q h

  n_same : {w : Option V} (f e : V) → w ≡ some f → w ≡ some e → f ≡ e
  n_same f e m n = cc

  -- On a sorted body the hint makes no difference: for every iterator given as the hint, the result
  -- is that of the insertion without one.
  pub emplace_hint_key_args-eq :
      (hint : ℕ) (k : K) (v : V) (s : List V)
      → IsSorted lt key s
      → hint ≤ length s
      → emplace_hint_key_args lt key hint k v s ≡ emplace_key_args lt key k v s
  unfolding emplace_hint_key_args
  emplace_hint_key_args-eq hint k v s h p = elim (Bool-cases (is_after lt key k hint s)) [
    | inr q ↦ rw q refl
    | inl q ↦ elim (Option-cases (get_elem? s hint)) [
      | inl n ↦
          let a = absent_end k hint s n in
          let i = lower_bound_at k hint s h p q (λ e m. absurd (ground (arith, n, m))) in
          rw (q, a, emplace_new k v hint s i a) refl
      | inr (e, n) ↦ elim (Bool-cases (lt k (key e))) [
        | inl a ↦
            let b = absent_at k hint e s n ∙ a in
            let i =
              lower_bound_at k hint s h p q
                (λ f m. not_less k f e (n_same f e m n) (o.asym k (key e) a)) in
            rw (q, b, emplace_new k v hint s i b) refl
        | inr a ↦ elim (Bool-cases (lt (key e) k)) [
          | inl b ↦ rw (q, absent_at k hint e s n, a, n, b) refl
          | inr b ↦
              let c = absent_at k hint e s n ∙ a in
              let i = lower_bound_at k hint s h p q (λ f m. not_less k f e (n_same f e m n) b) in
              rw (q, c, n, b, emplace_old k v hint s i c) refl
        ]
      ]
    ]
  ]

  -- `insert_or_assign`, by recursion.
  abbrev pub assign : V → List V → List V
  assign v [] = v ∷ []
  assign v (e ∷ s) =
      if lt (key e) (key v) then e ∷ assign v s else if lt (key v) (key e) then v ∷ e ∷ s else v ∷ s

  pub insert_or_assign-assign : (v : V) (s : List V) → (insert_or_assign lt key v s).2 ≡ assign v s
  unfolding insert_or_assign lower_bound unsafe_emplace
  insert_or_assign-assign v [] = refl
  insert_or_assign-assign v (e ∷ s) = elim (Bool-cases (lt (key e) (key v))) [
    | inl h ↦ elim (Bool-cases (is_absent lt key (key v) (lower_bound lt key (key v) s) s)) [
      | inl a ↦ rw (h, a) (ap (λ r. e ∷ r) (rw a at (insert_or_assign-assign v s)))
      | inr a ↦ rw (h, a) (ap (λ r. e ∷ r) (rw a at (insert_or_assign-assign v s)))
    ]
    | inr h ↦ elim (Bool-cases (lt (key v) (key e))) [
      | inl a ↦ rw (h, a) refl
      | inr a ↦ rw (h, a) refl
    ]
  ]

  assign-All : (P : V → Type 0) (v : V) (s : List V) → P v → All P s → All P (assign v s)
  assign-All P v [] p h = (p, tt)
  assign-All P v (e ∷ s) p (q, h) = elim (Bool-cases (lt (key e) (key v))) [
    | inl a ↦ rw a (q, assign-All P v s p h)
    | inr a ↦ elim (Bool-cases (lt (key v) (key e))) [
      | inl b ↦ rw (a, b) (p, (q, h))
      | inr b ↦ rw (a, b) (p, h)
    ]
  ]

  pub assign-IsSorted : (v : V) (s : List V) → IsSorted lt key s → IsSorted lt key (assign v s)
  assign-IsSorted v [] h = (tt, tt)
  assign-IsSorted v (e ∷ s) (all, h) = elim (Bool-cases (lt (key e) (key v))) [
    | inl a ↦ rw a (assign-All _ v s a all, assign-IsSorted v s h)
    | inr a ↦ elim (Bool-cases (lt (key v) (key e))) [
      | inl b ↦
          rw (a, b)
            ((b, All-imp _ _ s (λ f q. lt_trans o (key v) (key e) (key f) b q) all), (all, h))
      | inr b ↦
          rw (a, b) (All-imp _ _ s (λ f q. lt_of_equiv_left o (key v) (key e) (key f) a q) all, h)
    ]
  ]

  pub lookup-assign :
      (k : K) (v : V) (s : List V)
      → IsSorted lt key s
      → lookup lt key k (assign v s) ≡ (if equiv lt k (key v) then some v else lookup lt key k s)
  lookup-assign k v [] h = refl
  lookup-assign k v (e ∷ s) (all, h) = elim (Bool-cases (lt (key e) (key v))) [
    | inl a ↦ elim (Bool-cases (equiv lt k (key e))) [
      | inl q ↦
          rw
            (
              a,
              q,
              not_equiv o key k (key v)
                  (lt_of_equiv_left o k (key e) (key v) (equiv_parts o k (key e) q).1 a),
            )
            refl
      | inr q ↦ rw (a, q) (lookup-assign k v s h)
    ]
    | inr a ↦ elim (Bool-cases (lt (key v) (key e))) [
      | inl b ↦ rw (a, b) refl
      | inr b ↦ elim (Bool-cases (equiv lt k (key v))) [
        | inl q ↦ rw (a, b, q) refl
        | inr q ↦ rw (a, b, q, other k e v q (equiv_intro o (key e) (key v) a b)) refl
      ]
    ]
  ]
    where
      other :
          (k : K) (e v : V)
          → equiv lt k (key v) ≡ false
          → equiv lt (key e) (key v) ≡ true
          → equiv lt k (key e) ≡ false
      other k e v q r = elim (Bool-cases (equiv lt k (key e))) [
        | inr z ↦ z
        | inl z ↦ absurd (ground (arith, equiv_trans o k (key e) (key v) z r, q))
      ]
