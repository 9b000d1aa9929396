-- ===== src/FlatTree/Search.antt =====
-- The searches and erasures of flat_tree.h, against the abstract view.
use tqlib.Prelude.{
  ℕ, suc, ◌+◌, ◌≡◌, refl, sym, ◌∙◌, ap, ◌⊎◌, inl, inr, Bool, true, false, not, Option, none, some,
  List, [], ◌∷◌, ◌++◌, arith, ◌==◌, if◌then◌else◌, Bool-cases, length, get_elem?, take, drop, All,
  All-imp,
}
use tqlib.FlatTree.{is_absent, find, count, contains, erase_key}
use tqlib.FlatTree.Algorithms.{lower_bound, remove_if}
use tqlib.FlatTree.Sorted.{
  IsStrictWeak, equiv, lookup, IsSorted, above_equiv, lookup_below, lt_trans, lt_of_equiv_left,
}

-- Whether a value was found.
abbrev pub is_some {ℓ} : {A : Type ℓ} → Option A → Bool
is_some none = false
is_some (some a) = true

module _ {V : Type 0} (pred : V → Bool) where
  remove_if-All : (P : V → Type 0) (s : List V) → All P s → All P (remove_if pred s)
  unfolding remove_if
  remove_if-All P [] h = tt
  remove_if-All P (e ∷ s) (p, h) = elim (Bool-cases (pred e)) [
    | inl a ↦ rw a (remove_if-All P s h)
    | inr a ↦ rw a (p, remove_if-All P s h)
  ]

  remove_if_none : (s : List V) → All (λ e. pred e ≡ false) s → remove_if pred s ≡ s
  unfolding remove_if
  remove_if_none [] h = refl
  remove_if_none (e ∷ s) (p, h) = rw (p, remove_if_none s h) refl

module _ {K V : Type 0} {lt : K → K → Bool} (o : IsStrictWeak lt) (key : V → K) where
  -- What `lower_bound` finds: no value of the key, or the one that the abstract view has.
  abbrev pub Finds : K → List V → Type 0
  Finds k s =
      let l = lower_bound lt key k s in
      (is_absent lt key k l s ≡ true) × (lookup lt key k s ≡ none)
      ⊎ ((is_absent lt key k l s ≡ false)
          × ((e : V) × (get_elem? s l ≡ some e) × (lookup lt key k s ≡ some e)))

  pub finds : (k : K) (s : List V) → IsSorted lt key s → Finds k s
  unfolding lower_bound is_absent
  finds k [] h = inl (refl, refl)
  finds k (e ∷ s) (all, h) = elim (Bool-cases (lt (key e) k)) [
    | inl a ↦ rw (a, o.asym (key e) k a) (finds k s h)
    | inr a ↦ elim (Bool-cases (lt k (key e))) [
      | inl b ↦
          rw (a, b)
            (let none_here =
                lookup_below o key k s
                  (All-imp _ _ s (λ f r. lt_trans o k (key e) (key f) b r) all) in
              inl (refl, none_here))
      | inr b ↦ rw (a, b) (inr (refl, (e, refl, refl)))
    ]
  ]

  pub get_elem?-end : (s : List V) → get_elem? s (length s) ≡ none
  get_elem?-end [] = refl
  get_elem?-end (e ∷ s) = get_elem?-end s

  pub contains-is_absent :
      (k : K) (s : List V)
      → contains lt key k s ≡ not (is_absent lt key k (lower_bound lt key k s) s)
  unfolding contains is_absent
  contains-is_absent k s = go (get_elem? s (lower_bound lt key k s))
    where
      go :
          (w : Option V)
          → (elim w [ none ↦ false | some e ↦ not (lt k (key e)) ])
            ≡ not (elim w [ none ↦ true | some e ↦ lt k (key e) ])
      go none = refl
      go (some e) = refl

  unit_step : (n : ℕ) → (n == n + 1) ≡ false
  unit_step n = ground arith

  same_place : (n : ℕ) → (n == n) ≡ true
  same_place n = ground arith

  -- On a sorted body `find` leads to the value that the abstract view has for the key, and to end()
  -- if it has none. `contains` says whether there is one, and `count` is one or zero accordingly.
  pub find_correct :
      (k : K) (s : List V)
      → IsSorted lt key s
      → (get_elem? s (find lt key k s) ≡ lookup lt key k s)
        × (contains lt key k s ≡ is_some (lookup lt key k s))
        × (count lt key k s ≡ (if is_some (lookup lt key k s) then 1 else 0))
  unfolding find count contains is_absent
  find_correct k s h = elim (finds k s h) [
    | inl (a, e) ↦
        rw (e, a, same_place (lower_bound lt key k s))
          (get_elem?-end s, contains-is_absent k s ∙ rw a, omega arith)
    | inr (a, (v, here, e)) ↦
        rw (e, a, unit_step (lower_bound lt key k s))
          (here, contains-is_absent k s ∙ rw a, omega arith)
  ]

  -- `find` gives end() where there is no value.
  pub find_absent :
      (k : K) (s : List V)
      → is_absent lt key k (lower_bound lt key k s) s ≡ true
      → find lt key k s ≡ length s
  unfolding find
  find_absent k s a = rw (a, same_place (lower_bound lt key k s)) refl

  next_place : (n : ℕ) → suc n + 1 ≡ suc (n + 1)
  next_place n = omega arith

  pub not_equiv : (a b : K) → lt a b ≡ true → equiv lt a b ≡ false
  not_equiv a b h = rw h refl

  -- The erasure of a key takes out the values that are equivalent to it.
  erase_key-remove_if :
      (k : K) (s : List V)
      → IsSorted lt key s
      → (erase_key lt key k s).1 ≡ remove_if (λ e. equiv lt k (key e)) s
  unfolding erase_key lower_bound remove_if
  erase_key-remove_if k [] h = refl
  erase_key-remove_if k (e ∷ s) (all, h) = elim (Bool-cases (lt (key e) k)) [
    | inl a ↦ elim (Bool-cases (is_absent lt key k (lower_bound lt key k s) s)) [
      | inl c ↦
          rw (a, o.asym (key e) k a, c) (ap (λ r. e ∷ r) (rw c at (erase_key-remove_if k s h)))
      | inr c ↦
          rw (a, o.asym (key e) k a, c)
            (ap (λ n. e ∷ (take (lower_bound lt key k s) s ++ drop n (e ∷ s)))
                (next_place (lower_bound lt key k s))
              ∙ ap (λ r. e ∷ r) (rw c at (erase_key-remove_if k s h)))
    ]
    | inr a ↦ elim (Bool-cases (lt k (key e))) [
      | inl b ↦
          rw (a, b)
            (ap (λ r. e ∷ r)
              (sym (
                remove_if_none _ s (
                  All-imp _ _ s (λ f q. not_equiv k (key f) (lt_trans o k (key e) (key f) b q))
                    all))))
      | inr b ↦
          rw (a, b)
            (sym (
              remove_if_none _ s (
                All-imp _ _ s
                  (λ f q. not_equiv k (key f) (lt_of_equiv_left o k (key e) (key f) a q)) all)))
    ]
  ]

  pub remove_if-IsSorted :
      (pred : V → Bool) (s : List V) → IsSorted lt key s → IsSorted lt key (remove_if pred s)
  unfolding remove_if
  remove_if-IsSorted pred [] h = tt
  remove_if-IsSorted pred (e ∷ s) (all, h) = elim (Bool-cases (pred e)) [
    | inl a ↦ rw a (remove_if-IsSorted pred s h)
    | inr a ↦ rw a (remove_if-All pred _ s all, remove_if-IsSorted pred s h)
  ]

  -- What is kept of the value of a key.
  abbrev pub unless : (V → Bool) → Option V → Option V
  unless pred none = none
  unless pred (some e) = if pred e then none else some e

  pub lookup-remove_if :
      (pred : V → Bool) (k : K) (s : List V)
      → IsSorted lt key s
      → lookup lt key k (remove_if pred s) ≡ unless pred (lookup lt key k s)
  unfolding remove_if
  lookup-remove_if pred k [] h = refl
  lookup-remove_if pred k (e ∷ s) (all, h) = elim (Bool-cases (pred e)) [
    | inl a ↦ elim (Bool-cases (equiv lt k (key e))) [
      | inl q ↦
          rw (a, q, a)
            (lookup_below o key k _ (remove_if-All pred _ s (above_equiv o key k e s q all)))
      | inr q ↦ rw (a, q) (lookup-remove_if pred k s h)
    ]
    | inr a ↦ elim (Bool-cases (equiv lt k (key e))) [
      | inl q ↦ rw (a, q, a) refl
      | inr q ↦ rw (a, q) (lookup-remove_if pred k s h)
    ]
  ]

  pub erase_key-IsSorted :
      (k : K) (s : List V) → IsSorted lt key s → IsSorted lt key (erase_key lt key k s).1
  erase_key-IsSorted k s h = rw (erase_key-remove_if k s h) (remove_if-IsSorted _ s h)

  pub lookup-erase_key :
      (p k : K) (s : List V)
      → IsSorted lt key s
      → lookup lt key p (erase_key lt key k s).1
        ≡ unless (λ e. equiv lt k (key e)) (lookup lt key p s)
  lookup-erase_key p k s h = rw (erase_key-remove_if k s h) (lookup-remove_if _ p s h)
