-- ===== src/Percentile/Erase.antt =====
-- `Erase` of PercentileFilter (rtc_base/numerics/percentile_filter.h).
use mathlib.Core.List.{Perm}
use tqlib.Prelude.{
  ℕ, zero, suc, ◌-◌, ◌<◌, ◌≡◌, ◌⊎◌, refl, sym, ◌∙◌, ap, subst, inl, inr, Bool, true, false, Option,
  none, some, Option-cases, List, [], ◌∷◌, arith, Bool-cases, ltb, leb, ◌==◌, if◌then◌else◌, length,
  get_elem?, All, All-imp,
}
use tqlib.Prelude.Int.{ℤ, ltb_ℤ, leb_ℤ, eqb_ℤ}
use tqlib.Percentile.{
  PercentileFilter, lower_place, multiset_erase, value_at, update_percentile_iterator,
  erase_at_place, erase_value,
}
use tqlib.Percentile.Position.{IsAscending, lower_place_lem, erased_at}
use tqlib.Percentile.Multiset.{
  IsInRange, IsAtTarget, update-IsAtTarget, erase-IsAscending, erase-perm,
}

module _ (target : ℕ → ℕ) (range : IsInRange target) where
  erase_same :
      (v : ℤ) (p : ℕ) (f : PercentileFilter)
      → (p == f.percentile_it) ≡ true
      → erase_at_place target v p f
        ≡ update_percentile_iterator target (record {
          set = multiset_erase p f.set;
          percentile_it = p;
          percentile_index = f.percentile_index;
        })
  unfolding erase_at_place
  erase_same v p f q = rw (q, erase_at_place) refl

  erase_before :
      (v : ℤ) (p : ℕ) (f : PercentileFilter)
      → (p == f.percentile_it) ≡ false
      → ltb p f.percentile_it ≡ true
      → leb_ℤ v (value_at (f.percentile_it - 1) (multiset_erase p f.set)) ≡ true
      → erase_at_place target v p f
        ≡ update_percentile_iterator target (record {
          set = multiset_erase p f.set;
          percentile_it = f.percentile_it - 1;
          percentile_index = f.percentile_index - 1;
        })
  unfolding erase_at_place
  erase_before v p f q a b = rw (q, a, b, erase_at_place) refl

  erase_behind :
      (v : ℤ) (p : ℕ) (f : PercentileFilter)
      → (p == f.percentile_it) ≡ false
      → ltb p f.percentile_it ≡ false
      → leb_ℤ v (value_at f.percentile_it (multiset_erase p f.set)) ≡ false
      → erase_at_place target v p f
        ≡ update_percentile_iterator target (record {
          set = multiset_erase p f.set;
          percentile_it = f.percentile_it;
          percentile_index = f.percentile_index;
        })
  unfolding erase_at_place
  erase_behind v p f q a b = rw (q, a, b, erase_at_place) refl

  erase_done :
      (v : ℤ) (p : ℕ) (f g : PercentileFilter)
      → IsAscending f.set
      → get_elem? f.set p ≡ some v
      → erase_at_place target v p f ≡ update_percentile_iterator target g
      → g.set ≡ multiset_erase p f.set
      → g.percentile_it ≡ g.percentile_index
      → IsAtTarget target (erase_at_place target v p f)
        × Perm f.set (v ∷ (erase_at_place target v p f).set)
  erase_done v p f g h n e s i =
      let (x, y) = update-IsAtTarget target g (rw s (erase-IsAscending p f.set h)) i in
      rw e (x, rw (y, s) (erase-perm p v f.set n))

  erase_split :
      (v : ℤ) (f : PercentileFilter)
      → IsAscending f.set
      → f.percentile_it < length f.set
      → lower_place v f.set < length f.set
      → (lower_place v f.set == f.percentile_it) ≡ false
      → (b : Bool) → ltb (lower_place v f.set) f.percentile_it ≡ b
      → leb_ℤ v (
          value_at
            (if b then f.percentile_it - 1 else f.percentile_it)
            (multiset_erase (lower_place v f.set) f.set))
        ≡ b
  unfolding value_at multiset_erase
  erase_split v f h l k ne b q =
      let same = erased_at (lower_place v f.set) f.percentile_it f.set k l ne in
      ap (leb_ℤ v) (rw q at same)
      ∙ lower_place_lem v f.set f.percentile_it h l
      ∙ strict (lower_place v f.set) f.percentile_it ne
      ∙ q
    where
      strict : (p i : ℕ) → (p == i) ≡ false → leb p i ≡ ltb p i
      strict p i ne = ground (arith, ne)

elem_bound : (s : List ℤ) (p : ℕ) (v : ℤ) → get_elem? s p ≡ some v → p < length s
elem_bound [] p v h = absurd (ground (arith, h))
elem_bound (e ∷ s) zero v h = omega arith
elem_bound (e ∷ s) (suc p) v h = omega (arith, elem_bound s p v h)

-- Where the lower bound of a value is another value, or the end, the value is not there.
abbrev Differs : ℤ → Option ℤ → Type 0
Differs v none = Unit
Differs v (some e) = eqb_ℤ e v ≡ false

not_there :
    (v : ℤ) (s : List ℤ)
    → IsAscending s
    → Differs v (get_elem? s (lower_place v s))
    → All (λ e. eqb_ℤ e v ≡ false) s
unfolding lower_place
not_there v [] h d = tt
not_there v (e ∷ s) (all, h) d = elim (Bool-cases (ltb_ℤ e v)) [
  | inl q ↦ (ground (arith, q), not_there v s h (rw q at d))
  | inr q ↦
      let ne : eqb_ℤ e v ≡ false = rw q at d in
      (ne, All-imp _ _ s (λ f k. ground (arith, k, q, ne)) all)
]

module _ (target : ℕ → ℕ) (range : IsInRange target) where
  erase_found :
      (v : ℤ) (f : PercentileFilter)
      → IsAtTarget target f
      → get_elem? f.set (lower_place v f.set) ≡ some v
      → IsAtTarget target (erase_at_place target v (lower_place v f.set) f)
        × Perm f.set (v ∷ (erase_at_place target v (lower_place v f.set) f).set)
  erase_found v f a n =
      let p = lower_place v f.set in
      let inside : p < length f.set = elem_bound f.set p v n in
      let some_there : 0 < length f.set = omega (arith, inside) in
      let it = a.iterator some_there in
      let index = a.index some_there in
      let there : f.percentile_it < length f.set =
        omega (arith, it, range (length f.set) some_there) in
      elim (Bool-cases (p == f.percentile_it)) [
        | inl q ↦
            erase_done target range v p f _ a.ascends n (erase_same target range v p f q) refl
              (ground (arith, q, it, index))
        | inr q ↦ elim (Bool-cases (ltb p f.percentile_it)) [
          | inl b ↦
              erase_done target range v p f _ a.ascends n
                (erase_before target range v p f q b
                  (erase_split target range v f a.ascends there inside q true b))
                refl (omega (arith, it, index))
          | inr b ↦
              erase_done target range v p f _ a.ascends n
                (erase_behind target range v p f q b
                  (erase_split target range v f a.ascends there inside q false b))
                refl (omega (arith, it, index))
        ]
      ]

  -- `Erase` takes one of the values that are equal to the one given and keeps the iterator and the index
  -- at the computed position; where there is none, it says so and changes nothing.
  pub erase_value_correct :
      (v : ℤ) (f : PercentileFilter)
      → IsAtTarget target f
      → let (erased, f1) = erase_value target v f in
        IsAtTarget target f1
        × (((erased ≡ true) × Perm f.set (v ∷ f1.set))
            ⊎ ((erased ≡ false) × (f1 ≡ f) × All (λ e. eqb_ℤ e v ≡ false) f.set))
  unfolding erase_value
  erase_value_correct v f a = elim (Option-cases (get_elem? f.set (lower_place v f.set))) [
    | inl n ↦
        rw (n, erase_value)
          (a, inr (refl, refl, not_there v f.set a.ascends (subst (Differs v) (sym n) tt)))
    | inr (e, n) ↦ elim (Bool-cases (eqb_ℤ e v)) [
      | inr q ↦
          rw (n, q, erase_value)
            (a, inr (refl, refl, not_there v f.set a.ascends (subst (Differs v) (sym n) q)))
      | inl q ↦
          let same : e ≡ v = ground (arith, q) in
          let (x, y) = erase_found v f a (n ∙ ap some same) in
          rw (n, q, erase_value) (x, inl (refl, y))
    ]
  ]
