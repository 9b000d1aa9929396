-- ===== src/FlatMap/Correct.antt =====
-- What flat_map.h promises of its operations, for a sorted body and a strict weak order.
use tqlib.Prelude.{
  ℕ, ◌≤◌, ◌≡◌, refl, sym, ◌∙◌, ap, ◌⊎◌, inl, inr, Bool, true, Option, none, some, List, [], ◌∷◌,
  arith, if◌then◌else◌, ◌==◌, Bool-cases, length, get_elem?,
}
use tqlib.FlatTree.{emplace_key_args, find, insert}
use tqlib.FlatTree.Sorted.{IsStrictWeak, equiv, lookup, IsSorted, or_value}
use tqlib.FlatTree.Search.{find_correct, finds, find_absent, get_elem?-end}
use tqlib.FlatTree.Refine.{insert-IsSorted, lookup-insert}
use tqlib.FlatTree.Insert.{emplace_hint_key_args-eq}
use tqlib.FlatMap.{
  get_first, assign_second, at_key, subscript, insert_or_assign, insert_or_assign_hint, try_emplace,
  try_emplace_hint,
}
use tqlib.FlatMap.Assign.{
  mapped, insert_or_assign-place, subscript-place, place_pair-IsSorted, mapped-place,
}

same_place : (n : ℕ) → (n == n) ≡ true
same_place n = ground arith

module _ {K M : Type 0} {lt : K → K → Bool} (o : IsStrictWeak lt) where
  -- A write to what operator[] returns leaves the same body as insert_or_assign, whatever the default
  -- value, and so does insert_or_assign with any hint.
  pub subscript-insert_or_assign :
      (hint : ℕ) (default m : M) (k : K) (s : List (K × M))
      → IsSorted lt get_first s
      → hint ≤ length s
      → (let (i, body) = subscript lt default k s in
          assign_second i m body ≡ (insert_or_assign lt k m s).2)
        × ((insert_or_assign_hint lt hint k m s).1 ≡ (insert_or_assign lt k m s).2)
  unfolding insert_or_assign insert_or_assign_hint
  subscript-insert_or_assign hint default m k s h p = (
    subscript-place lt default m k s ∙ sym (insert_or_assign-place lt k m s),
    rw (emplace_hint_key_args-eq o get_first hint k (k, m) s h p) refl,
  )

  -- insert_or_assign keeps the body sorted, maps its key and no other one to the new object, and says
  -- whether the key is new.
  pub insert_or_assign_correct :
      (k : K) (m : M) (s : List (K × M))
      → IsSorted lt get_first s
      → let (i, new, body) = insert_or_assign lt k m s in
        IsSorted lt get_first body
        × ((p : K) → mapped lt p body ≡ (if equiv lt p k then some m else mapped lt p s))
  insert_or_assign_correct k m s h =
      rw (insert_or_assign-place lt k m s)
        (place_pair-IsSorted o k m s h, λ p. mapped-place o p k m s h)

  -- What the pair of a key holds.
  abbrev pub second : Option (K × M) → Option M
  second none = none
  second (some e) = some e.1

  mapped-lookup : (k : K) (s : List (K × M)) → mapped lt k s ≡ second (lookup lt get_first k s)
  mapped-lookup k [] = refl
  mapped-lookup k (e ∷ s) = elim (Bool-cases (equiv lt k e.0)) [
    | inl q ↦ rw q refl
    | inr q ↦ rw q (mapped-lookup k s)
  ]

  abbrev pub or_mapped : Option M → Option M → Option M
  or_mapped none w = w
  or_mapped (some m) w = some m

  second-or :
      (v w : Option (K × M)) → second (or_value o get_first v w) ≡ or_mapped (second v) (second w)
  second-or none w = refl
  second-or (some e) w = refl

  second_one :
      (p k : K) (m : M)
      → second (lookup lt get_first p ((k, m) ∷ [])) ≡ (if equiv lt p k then some m else none)
  second_one p k m = elim (Bool-cases (equiv lt p k)) [ inl q ↦ rw q refl | inr q ↦ rw q refl ]

  insert_same :
      (k : K) (m : M) (s : List (K × M)) → try_emplace lt k m s ≡ insert lt get_first (k, m) s
  unfolding try_emplace insert
  insert_same k m s = refl

  -- try_emplace keeps the body sorted and what every key is mapped to, and maps its key to the new
  -- object where it was mapped to none; with any hint it does the same.
  pub try_emplace_correct :
      (hint : ℕ) (k : K) (m : M) (s : List (K × M))
      → IsSorted lt get_first s
      → hint ≤ length s
      → let (i, new, body) = try_emplace lt k m s in
        IsSorted lt get_first body
        × ((p : K)
            → mapped lt p body ≡ or_mapped (mapped lt p s) (if equiv lt p k then some m else none))
        × (try_emplace_hint lt hint k m s ≡ (i, body))
  unfolding try_emplace_hint emplace_key_args try_emplace
  try_emplace_correct hint k m s h p = rw (insert_same k m s) (
    insert-IsSorted o get_first (k, m) s h,
    λ q.
        mapped-lookup q _
        ∙ ap second (lookup-insert o get_first q (k, m) s h)
        ∙ second-or (lookup lt get_first q s) _
        ∙ ap (λ w. or_mapped w (second (lookup lt get_first q ((k, m) ∷ []))))
            (sym (mapped-lookup q s))
        ∙ ap (or_mapped (mapped lt q s)) (second_one q k m),
    rw (emplace_hint_key_args-eq o get_first hint k (k, m) s h p)
        (ap (λ r. (r.0, r.2)) (insert_same k m s)),
  )

  end_none : (i : ℕ) (s : List (K × M)) → (i == length s) ≡ true → get_elem? s i ≡ none
  end_none i s q = ap (get_elem? s) (ground (arith, q)) ∙ get_elem?-end o get_first s

  -- `at` fails its check where the key is mapped to nothing, and only there; else it refers to the
  -- pair that holds what the key is mapped to.
  pub at_key_correct :
      (k : K) (s : List (K × M))
      → IsSorted lt get_first s
      → ((at_key lt k s ≡ none) × (mapped lt k s ≡ none))
        ⊎ ((i : ℕ) × (e : K × M) × (at_key lt k s ≡ some i)
            × (get_elem? s i ≡ some e)
            × (mapped lt k s ≡ some e.1))
  unfolding at_key
  at_key_correct k s h = elim (finds o get_first k s h) [
    | inl (a, e) ↦ inl (
      rw (find_absent o get_first k s a, same_place (length s)) refl,
      mapped-lookup k s ∙ ap second e,
    )
    | inr (a, (v, here, e)) ↦
        let f = (find_correct o get_first k s h).0 ∙ e in
        elim (Bool-cases (find lt get_first k s == length s)) [
          | inl q ↦ absurd (ground (arith, end_none (find lt get_first k s) s q, f))
          | inr q ↦ inr (find lt get_first k s, v, rw q refl, f, mapped-lookup k s ∙ ap second e)
        ]
  ]
