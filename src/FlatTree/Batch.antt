-- ===== src/FlatTree/Batch.antt =====
-- The sorting and merging of flat_tree.h's batch insertion.
use tqlib.Prelude.{
  ◌≡◌, refl, sym, ◌∙◌, ap, inl, inr, Bool, true, false, none, some, List, [], ◌∷◌, ◌++◌, arith,
  if◌then◌else◌, Bool-cases, All, All-imp,
}
use tqlib.FlatTree.Algorithms.{insert_stable, stable_sort, unique_from, unique, merge}
use tqlib.FlatTree.Sorted.{
  IsStrictWeak, equiv, lookup, IsSorted, lt_trans, lt_of_equiv_left, equiv_intro, equiv_parts,
  equiv_trans, equiv_sym, above_equiv, lookup_below, or_value, or_value-none,
}
use tqlib.FlatTree.Search.{not_equiv}

module _ {K V : Type 0} {lt : K → K → Bool} (o : IsStrictWeak lt) (key : V → K) where
  pub lookup-append :
      (k : K) (s t : List V)
      → lookup lt key k (s ++ t) ≡ or_value o key (lookup lt key k s) (lookup lt key k t)
  lookup-append k [] t = refl
  lookup-append k (e ∷ s) t = elim (Bool-cases (equiv lt k (key e))) [
    | inl q ↦ rw q refl
    | inr q ↦ rw q (lookup-append k s t)
  ]

  -- Of the values of one key a stable sort keeps the order.
  lookup-insert_stable :
      (k : K) (v : V) (s : List V)
      → lookup lt key k (insert_stable lt key v s)
        ≡ (if equiv lt k (key v) then some v else lookup lt key k s)
  unfolding insert_stable
  lookup-insert_stable k v [] = refl
  lookup-insert_stable k v (e ∷ s) = elim (Bool-cases (lt (key e) (key v))) [
    | inr a ↦ rw a refl
    | inl a ↦ elim (Bool-cases (equiv lt k (key e))) [
      | inl q ↦ rw (a, q, apart k e v q a) refl
      | inr q ↦ rw (a, q) (lookup-insert_stable k v s)
    ]
  ]
    where
      apart :
          (k : K) (e v : V)
          → equiv lt k (key e) ≡ true
          → lt (key e) (key v) ≡ true
          → equiv lt k (key v) ≡ false
      apart k e v q a =
          not_equiv o key k (key v)
            (lt_of_equiv_left o k (key e) (key v) (equiv_parts o k (key e) q).1 a)

  lookup-stable_sort :
      (k : K) (s : List V) → lookup lt key k (stable_sort lt key s) ≡ lookup lt key k s
  unfolding stable_sort
  lookup-stable_sort k [] = refl
  lookup-stable_sort k (e ∷ s) =
      rw (lookup-insert_stable k e (stable_sort lt key s), lookup-stable_sort k s) refl

  -- No value is less than one before it.
  abbrev pub Ascends : List V → Type 0
  Ascends [] = Unit
  Ascends (e ∷ s) = All (λ f. lt (key f) (key e) ≡ false) s × Ascends s

  insert_stable-All :
      (P : V → Type 0) (v : V) (s : List V) → P v → All P s → All P (insert_stable lt key v s)
  unfolding insert_stable
  insert_stable-All P v [] p h = (p, tt)
  insert_stable-All P v (e ∷ s) p (q, h) = elim (Bool-cases (lt (key e) (key v))) [
    | inl a ↦ rw a (q, insert_stable-All P v s p h)
    | inr a ↦ rw a (p, (q, h))
  ]

  insert_stable-Ascends : (v : V) (s : List V) → Ascends s → Ascends (insert_stable lt key v s)
  unfolding insert_stable
  insert_stable-Ascends v [] h = (tt, tt)
  insert_stable-Ascends v (e ∷ s) (all, h) = elim (Bool-cases (lt (key e) (key v))) [
    | inl a ↦
        rw a (insert_stable-All _ v s (o.asym (key e) (key v) a) all, insert_stable-Ascends v s h)
    | inr a ↦
        rw a ((a, All-imp _ _ s (λ f q. o.neg_trans (key f) (key e) (key v) q a) all), (all, h))
  ]

  stable_sort-Ascends : (s : List V) → Ascends (stable_sort lt key s)
  unfolding stable_sort
  stable_sort-Ascends [] = tt
  stable_sort-Ascends (e ∷ s) = insert_stable-Ascends e _ (stable_sort-Ascends s)

  unique_from-All :
      (P : V → Type 0) (last : V) (s : List V) → All P s → All P (unique_from lt key last s)
  unfolding unique_from
  unique_from-All P last [] h = tt
  unique_from-All P last (e ∷ s) (p, h) = elim (Bool-cases (lt (key last) (key e))) [
    | inl a ↦ rw a (p, unique_from-All P e s h)
    | inr a ↦ rw a (unique_from-All P last s h)
  ]

  unique_from-IsSorted :
      (last : V) (s : List V)
      → Ascends (last ∷ s)
      → IsSorted lt key (last ∷ unique_from lt key last s)
  unfolding unique_from
  unique_from-IsSorted last [] h = (tt, tt)
  unique_from-IsSorted last (e ∷ s) ((p, all), (above, h)) =
      elim (Bool-cases (lt (key last) (key e))) [
        | inl a ↦
            let rest = unique_from-IsSorted e s (above, h) in
            rw a
              ((a, All-imp _ _ _ (λ f q. lt_trans o (key last) (key e) (key f) a q) rest.0), rest)
        | inr a ↦ rw a (unique_from-IsSorted last s (all, h))
      ]

  lookup-unique_from :
      (k : K) (last : V) (s : List V)
      → Ascends (last ∷ s)
      → lookup lt key k (last ∷ unique_from lt key last s) ≡ lookup lt key k (last ∷ s)
  unfolding unique_from
  lookup-unique_from k last [] h = refl
  lookup-unique_from k last (e ∷ s) ((p, all), (above, h)) =
      elim (Bool-cases (lt (key last) (key e))) [
        | inl a ↦ rw a (
            ap (λ w. if equiv lt k (key last) then some last else w)
              (lookup-unique_from k e s (above, h)))
        | inr a ↦ elim (Bool-cases (equiv lt k (key last))) [
          | inl q ↦ rw (a, q) refl
          | inr q ↦
              rw (a, q, apart k last e q (equiv_intro o (key last) (key e) a p))
                (rw q at (lookup-unique_from k last s (all, h)))
        ]
      ]
    where
      apart :
          (k : K) (last e : V)
          → equiv lt k (key last) ≡ false
          → equiv lt (key last) (key e) ≡ true
          → equiv lt k (key e) ≡ false
      apart k last e q r = elim (Bool-cases (equiv lt k (key e))) [
        | inr z ↦ z
        | inl z ↦
            absurd
              (ground (arith, equiv_trans o k (key e) (key last) z, equiv_sym o (key last) (key e)))
      ]

  -- What `sort_and_unique` makes of new values: sorted ones, of which each key keeps the first.
  pub unique-IsSorted : (s : List V) → IsSorted lt key (unique lt key (stable_sort lt key s))
  unfolding unique
  unique-IsSorted s = go (stable_sort lt key s) (stable_sort-Ascends s)
    where
      go : (t : List V) → Ascends t → IsSorted lt key (unique lt key t)
      go [] h = tt
      go (e ∷ t) h = unique_from-IsSorted e t h

  pub lookup-sorted_unique :
      (k : K) (s : List V)
      → lookup lt key k (unique lt key (stable_sort lt key s)) ≡ lookup lt key k s
  unfolding unique
  lookup-sorted_unique k s =
      go (stable_sort lt key s) (stable_sort-Ascends s) ∙ lookup-stable_sort k s
    where
      go : (t : List V) → Ascends t → lookup lt key k (unique lt key t) ≡ lookup lt key k t
      go [] h = refl
      go (e ∷ t) h = lookup-unique_from k e t h

  pub sorted_unique-All :
      (P : V → Type 0) (s : List V) → All P s → All P (unique lt key (stable_sort lt key s))
  unfolding unique stable_sort
  sorted_unique-All P s h = go (stable_sort lt key s) (sorted s h)
    where
      go : (t : List V) → All P t → All P (unique lt key t)
      go [] h = tt
      go (e ∷ t) (p, h) = (p, unique_from-All P e t h)

      sorted : (t : List V) → All P t → All P (stable_sort lt key t)
      sorted [] h = tt
      sorted (e ∷ t) (p, h) = insert_stable-All P e (stable_sort lt key t) p (sorted t h)

  pub merge-All : (P : V → Type 0) (s t : List V) → All P s → All P t → All P (merge lt key s t)
  unfolding merge
  merge-All P [] t h k = k
  merge-All P (e ∷ s) [] h k = h
  merge-All P (e ∷ s) (f ∷ t) (p, h) (q, k) = elim (Bool-cases (lt (key f) (key e))) [
    | inl a ↦ rw a (q, merge-All P (e ∷ s) t (p, h) k)
    | inr a ↦ rw a (p, merge-All P s (f ∷ t) h (q, k))
  ]

  pub lookup-merge :
      (k : K) (s t : List V)
      → IsSorted lt key s
      → lookup lt key k (merge lt key s t) ≡ or_value o key (lookup lt key k s) (lookup lt key k t)
  unfolding merge
  lookup-merge k [] t h = refl
  lookup-merge k (e ∷ s) [] h = sym (or_value-none o key _)
  lookup-merge k (e ∷ s) (f ∷ t) (all, h) = elim (Bool-cases (lt (key f) (key e))) [
    | inr a ↦ elim (Bool-cases (equiv lt k (key e))) [
      | inl q ↦ rw (a, q) refl
      | inr q ↦ rw (a, q) (lookup-merge k s (f ∷ t) h)
    ]
    | inl a ↦ elim (Bool-cases (equiv lt k (key f))) [
      | inl q ↦
          rw (a, q)
            (sym (
              ap (λ w. or_value o key w (some f))
                (lookup_below o key k (e ∷ s) (
                  above_equiv o key k f (e ∷ s) q
                    (a, All-imp _ _ s (λ g r. lt_trans o (key f) (key e) (key g) a r) all)))))
      | inr q ↦ rw (a, q) (lookup-merge k (e ∷ s) t (all, h))
    ]
  ]

  pub tail_none :
      (k : K) (e : V) (s : List V) → lookup lt key k (e ∷ s) ≡ none → lookup lt key k s ≡ none
  tail_none k e s n = elim (Bool-cases (equiv lt k (key e))) [
    | inl q ↦ absurd (ground (arith, q, n))
    | inr q ↦ rw q at n
  ]

  new_above :
      (e f : V) (s : List V)
      → lt (key f) (key e) ≡ false
      → lookup lt key (key f) (e ∷ s) ≡ none
      → lt (key e) (key f) ≡ true
  new_above e f s a n = elim (Bool-cases (lt (key e) (key f))) [
    | inl z ↦ z
    | inr z ↦ absurd (ground (arith, equiv_intro o (key f) (key e) a z, n))
  ]

  -- Two sorted ranges without a common key merge into one.
  pub merge-IsSorted :
      (s t : List V)
      → IsSorted lt key s
      → IsSorted lt key t
      → All (λ f. lookup lt key (key f) s ≡ none) t
      → IsSorted lt key (merge lt key s t)
  unfolding merge
  merge-IsSorted [] t h k d = k
  merge-IsSorted (e ∷ s) [] h k d = h
  merge-IsSorted (e ∷ s) (f ∷ t) (all, h) (above, k) (n, d) =
      elim (Bool-cases (lt (key f) (key e))) [
        | inl a ↦ rw a (
          merge-All _ (e ∷ s) t
              (a, All-imp _ _ s (λ g r. lt_trans o (key f) (key e) (key g) a r) all) above,
          merge-IsSorted (e ∷ s) t (all, h) k d,
        )
        | inr a ↦
            let less = new_above e f s a n in
            rw a (
              merge-All _ s (f ∷ t) all
                  (less, All-imp _ _ t (λ g r. lt_trans o (key e) (key f) (key g) less r) above),
              merge-IsSorted s (f ∷ t) h (above, k)
                  (tail_none (key f) e s n, All-imp _ _ t (λ g r. tail_none (key g) e s r) d),
            )
      ]
