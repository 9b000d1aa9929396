-- ===== src/FlatTree/Refine.antt =====
-- The operations of flat_tree.h as changes to a function from keys to values.
use tqlib.Prelude.{
  ℕ, zero, suc, ◌≡◌, refl, sym, ◌∙◌, ap, subst, Bool, true, Option, none, some, List, [], ◌∷◌, ◌++◌,
  arith, append-nil, length, take, drop, take-append-drop, All, All-imp, All-append, All-zip,
}
use tqlib.FlatTree.{insert, insert_hint, append_each, sort_and_unique, insert_range}
use tqlib.FlatTree.Algorithms.{stable_sort, unique, merge, remove_if}
use tqlib.FlatTree.Sorted.{
  IsStrictWeak, lookup, IsSorted, or_value, or_value-none, insert-put, lookup-put, put-IsSorted,
}
use tqlib.FlatTree.Batch.{
  lookup-append, unique-IsSorted, lookup-sorted_unique, sorted_unique-All, lookup-merge, merge-All,
  tail_none, merge-IsSorted,
}
use tqlib.FlatTree.Range.{
  take-left, drop-left, take-append, take_rest, All-swap, is_old, first_place, append_each_lem,
  first_place-le, first_place-All, take-less, lookup-news, news-All,
}
use tqlib.FlatTree.Insert.{emplace_hint_key_args-eq}

module _ {V : Type 0} (P : V → Type 0) where
  All-take : (n : ℕ) (s : List V) → All P s → All P (take n s)
  All-take zero s h = tt
  All-take (suc n) [] h = tt
  All-take (suc n) (e ∷ s) (p, h) = (p, All-take n s h)

  All-drop : (n : ℕ) (s : List V) → All P s → All P (drop n s)
  All-drop zero s h = h
  All-drop (suc n) [] h = tt
  All-drop (suc n) (e ∷ s) (p, h) = All-drop n s h

module _ {K V : Type 0} {lt : K → K → Bool} (o : IsStrictWeak lt) (key : V → K) where
  pub insert-IsSorted :
      (v : V) (s : List V) → IsSorted lt key s → IsSorted lt key (insert lt key v s).2
  insert-IsSorted v s h = rw (insert-put lt key v s) (put-IsSorted o key v s h)

  pub lookup-insert :
      (k : K) (v : V) (s : List V)
      → IsSorted lt key s
      → lookup lt key k (insert lt key v s).2
        ≡ or_value o key (lookup lt key k s) (lookup lt key k (v ∷ []))
  lookup-insert k v s h = ap (lookup lt key k) (insert-put lt key v s) ∙ lookup-put o key k v s h

  -- The new values of a range, as the code leaves them before it merges.
  news : List V → List V → List V
  news base vs = unique lt key (stable_sort lt key (remove_if (is_old o key base) vs))

  place : List V → List V → ℕ
  place base vs = first_place o key base vs (length base)

  many : (base : List V) (v w : V) (vs : List V) → List V
  many base v w vs =
      let p = place base (v ∷ w ∷ vs) in
      take p base ++ merge lt key (drop p base) (news base (v ∷ w ∷ vs))

  sort_and_unique_lem :
      (base t : List V)
      → sort_and_unique lt key (length base) (base ++ t)
        ≡ base ++ unique lt key (stable_sort lt key t)
  unfolding sort_and_unique
  sort_and_unique_lem base t = rw (take-left base t, drop-left base t) refl

  insert_range_lem :
      (base : List V) (v w : V) (vs : List V)
      → insert_range lt key (v ∷ w ∷ vs) base ≡ many base v w vs
  unfolding insert_range news place many
  insert_range_lem base v w vs =
      let e =
        ap (λ b. append_each lt key (length base) (v ∷ w ∷ vs) (length base, b))
          (sym (append-nil base))
        ∙ append_each_lem o key base [] (v ∷ w ∷ vs) (length base) in
      let h = first_place-le o key base (v ∷ w ∷ vs) (length base) in
      rw (e, sort_and_unique_lem base (remove_if (is_old o key base) (v ∷ w ∷ vs)))
        (rw
          (
            take-append _ base (news base (v ∷ w ∷ vs)) h,
            take_rest _ base (news base (v ∷ w ∷ vs)) h,
            drop-left base (news base (v ∷ w ∷ vs)),
          )
          refl)

  or_assoc :
      (a b c : Option V)
      → or_value o key a (or_value o key b c) ≡ or_value o key (or_value o key a b) c
  or_assoc none b c = refl
  or_assoc (some e) b c = refl

  lookup_split :
      (n : ℕ) (k : K) (s : List V)
      → or_value o key (lookup lt key k (take n s)) (lookup lt key k (drop n s)) ≡ lookup lt key k s
  lookup_split n k s =
      sym (lookup-append o key k (take n s) (drop n s))
      ∙ ap (lookup lt key k) (take-append-drop n s)

  or_news :
      (k : K) (base vs : List V)
      → IsSorted lt key base
      → or_value o key (lookup lt key k base) (lookup lt key k (news base vs))
        ≡ or_value o key (lookup lt key k base) (lookup lt key k vs)
  unfolding news
  or_news k base vs h = go (lookup lt key k base) refl
    where
      go :
          (w : Option V)
          → lookup lt key k base ≡ w
          → or_value o key w (
              lookup lt key k
                (unique lt key (stable_sort lt key (remove_if (is_old o key base) vs))))
            ≡ or_value o key w (lookup lt key k vs)
      go none e =
          lookup-sorted_unique o key k (remove_if (is_old o key base) vs)
          ∙ lookup-news o key k base vs h e
      go (some x) e = refl

  take-drop-IsSorted :
      (n : ℕ) (s : List V)
      → IsSorted lt key s
      → IsSorted lt key (take n s)
        × IsSorted lt key (drop n s)
        × All (λ f. All (λ e. lt (key e) (key f) ≡ true) (take n s)) (drop n s)
  take-drop-IsSorted zero s h = (tt, h, nothing s)
    where
      nothing : (t : List V) → All (λ f. All (λ e. lt (key e) (key f) ≡ true) []) t
      nothing [] = tt
      nothing (f ∷ t) = (tt, nothing t)
  take-drop-IsSorted (suc n) [] h = (tt, tt, tt)
  take-drop-IsSorted (suc n) (e ∷ s) (all, h) =
      let (a, b, c) = take-drop-IsSorted n s h in
      ((All-take _ n s all, a), b, All-zip _ _ _ (All-drop _ n s all) c)

  append-IsSorted :
      (s t : List V)
      → IsSorted lt key s
      → IsSorted lt key t
      → All (λ e. All (λ f. lt (key e) (key f) ≡ true) t) s
      → IsSorted lt key (s ++ t)
  append-IsSorted [] t h k c = k
  append-IsSorted (e ∷ s) t (all, h) k (p, c) = (All-append _ s t all p, append-IsSorted s t h k c)

  dropped_none :
      (n : ℕ) (k : K) (s : List V) → lookup lt key k s ≡ none → lookup lt key k (drop n s) ≡ none
  dropped_none zero k s q = q
  dropped_none (suc n) k [] q = q
  dropped_none (suc n) k (e ∷ s) q = dropped_none n k s (tail_none o key k e s q)

  many-IsSorted :
      (base : List V) (v w : V) (vs : List V)
      → IsSorted lt key base
      → IsSorted lt key (many base v w vs)
  unfolding many place news
  many-IsSorted base v w vs h =
      let p = place base (v ∷ w ∷ vs) in
      let fresh = remove_if (is_old o key base) (v ∷ w ∷ vs) in
      let (a, b, c) = take-drop-IsSorted p base h in
      let none_old = sorted_unique-All o key _ fresh (news-All o key base (v ∷ w ∷ vs) h) in
      let above = sorted_unique-All o key _ fresh (
        All-imp _ (λ f. All (λ e. lt (key e) (key f) ≡ true) (take p base)) fresh
          (λ f q. take-less o key (key f) p base q)
          (first_place-All o key base (v ∷ w ∷ vs) (length base))) in
      append-IsSorted _ _ a
        (merge-IsSorted o key _ _ b (unique-IsSorted o key fresh)
          (All-imp _ _ _ (λ f q. dropped_none p (key f) base q) none_old))
        (All-swap (λ e f. lt (key e) (key f) ≡ true) _ _ (merge-All o key _ _ _ c above))

  lookup-many :
      (k : K) (base : List V) (v w : V) (vs : List V)
      → IsSorted lt key base
      → lookup lt key k (many base v w vs)
        ≡ or_value o key (lookup lt key k base) (lookup lt key k (v ∷ w ∷ vs))
  unfolding many
  lookup-many k base v w vs h =
      let p = place base (v ∷ w ∷ vs) in
      let (a, b, c) = take-drop-IsSorted p base h in
      lookup-append o key k (take p base) _
      ∙ ap (or_value o key (lookup lt key k (take p base))) (lookup-merge o key k (drop p base) _ b)
      ∙ or_assoc (lookup lt key k (take p base)) (lookup lt key k (drop p base))
          (lookup lt key k (news base (v ∷ w ∷ vs)))
      ∙ ap (λ z. or_value o key z (lookup lt key k (news base (v ∷ w ∷ vs))))
          (lookup_split p k base)
      ∙ or_news k base (v ∷ w ∷ vs) h

  insert_range_one :
      (v : V) (base : List V)
      → IsSorted lt key base
      → insert_range lt key (v ∷ []) base ≡ (insert lt key v base).2
  unfolding insert_range insert_hint insert
  insert_range_one v base h =
      ap (λ r. r.2) (emplace_hint_key_args-eq o key (length base) (key v) v base h (omega arith))

  -- The insertion of a range keeps the body sorted, and gives each key that had no value the first of
  -- its values in the range.
  pub insert_range-IsSorted :
      (vs base : List V) → IsSorted lt key base → IsSorted lt key (insert_range lt key vs base)
  unfolding insert_range
  insert_range-IsSorted [] base h = h
  insert_range-IsSorted (v ∷ []) base h =
      subst (IsSorted lt key) (sym (insert_range_one v base h)) (insert-IsSorted v base h)
  insert_range-IsSorted (v ∷ w ∷ vs) base h =
      subst (IsSorted lt key) (sym (insert_range_lem base v w vs)) (many-IsSorted base v w vs h)

  pub lookup-insert_range :
      (k : K) (vs base : List V)
      → IsSorted lt key base
      → lookup lt key k (insert_range lt key vs base)
        ≡ or_value o key (lookup lt key k base) (lookup lt key k vs)
  unfolding insert_range
  lookup-insert_range k [] base h = sym (or_value-none o key _)
  lookup-insert_range k (v ∷ []) base h =
      ap (lookup lt key k) (insert_range_one v base h) ∙ lookup-insert k v base h
  lookup-insert_range k (v ∷ w ∷ vs) base h =
      ap (lookup lt key k) (insert_range_lem base v w vs) ∙ lookup-many k base v w vs h
