-- ===== src/Percentile/Insert.antt =====
-- `Insert` of PercentileFilter (rtc_base/numerics/percentile_filter.h).
use mathlib.Core.List.{Perm}
use tqlib.Prelude.{
  ℕ, suc, ◌<◌, ◌≡◌, refl, ◌∙◌, ap, inl, inr, Bool, true, false, ◌∷◌, arith, Bool-cases, leb, ◌==◌,
  if◌then◌else◌, length,
}
use tqlib.Prelude.Int.{ℤ, ltb_ℤ}
use tqlib.Percentile.{
  PercentileFilter, upper_place, multiset_insert, value_at, update_percentile_iterator,
  insert_value,
}
use tqlib.Percentile.Position.{IsAscending, upper_place_lem, upper_place-le, inserted_at}
use tqlib.Percentile.Multiset.{
  IsInRange, IsAtTarget, update-IsAtTarget, inserted_length, insert-IsAscending, insert-perm,
}

module _ (target : ℕ → ℕ) (range : IsInRange target) where
  insert_first :
      (v : ℤ) (f : PercentileFilter)
      → (length (multiset_insert v f.set) == 1) ≡ true
      → insert_value target v f
        ≡ update_percentile_iterator target
            (record { set = multiset_insert v f.set; percentile_it = 0; percentile_index = 0 })
  unfolding insert_value
  insert_first v f q = rw (q, insert_value) refl

  insert_before :
      (v : ℤ) (f : PercentileFilter)
      → (length (multiset_insert v f.set) == 1) ≡ false
      → leb (upper_place v f.set) f.percentile_it ≡ true
      → ltb_ℤ v (value_at (suc f.percentile_it) (multiset_insert v f.set)) ≡ true
      → insert_value target v f
        ≡ update_percentile_iterator target (record {
          set = multiset_insert v f.set;
          percentile_it = suc f.percentile_it;
          percentile_index = suc f.percentile_index;
        })
  unfolding insert_value
  insert_before v f q a b = rw (q, a, b, insert_value) refl

  insert_behind :
      (v : ℤ) (f : PercentileFilter)
      → (length (multiset_insert v f.set) == 1) ≡ false
      → leb (upper_place v f.set) f.percentile_it ≡ false
      → ltb_ℤ v (value_at f.percentile_it (multiset_insert v f.set)) ≡ false
      → insert_value target v f
        ≡ update_percentile_iterator target (record {
          set = multiset_insert v f.set;
          percentile_it = f.percentile_it;
          percentile_index = f.percentile_index;
        })
  unfolding insert_value
  insert_behind v f q a b = rw (q, a, b, insert_value) refl

  insert_done :
      (v : ℤ) (f g : PercentileFilter)
      → IsAscending f.set
      → insert_value target v f ≡ update_percentile_iterator target g
      → g.set ≡ multiset_insert v f.set
      → g.percentile_it ≡ g.percentile_index
      → IsAtTarget target (insert_value target v f) × Perm (insert_value target v f).set (v ∷ f.set)
  insert_done v f g h e s i =
      let (x, y) = update-IsAtTarget target g (rw s (insert-IsAscending v f.set h)) i in
      rw e (x, rw (y, s) (insert-perm v f.set))

  place_split :
      (v : ℤ) (f : PercentileFilter)
      → IsAscending f.set
      → f.percentile_it < length f.set
      → (b : Bool) → leb (upper_place v f.set) f.percentile_it ≡ b
      → ltb_ℤ v
          (value_at (if b then suc f.percentile_it else f.percentile_it) (multiset_insert v f.set))
        ≡ b
  unfolding value_at multiset_insert
  place_split v f h l b q =
      let same =
        inserted_at (upper_place v f.set) f.percentile_it v f.set (upper_place-le v f.set) l in
      ap (ltb_ℤ v) (rw q at same) ∙ upper_place_lem v f.set f.percentile_it h l ∙ q

  -- `Insert` keeps the iterator and the index at the computed position and adds its value.
  pub insert_value_correct :
      (v : ℤ) (f : PercentileFilter)
      → IsAtTarget target f
      → IsAtTarget target (insert_value target v f) × Perm (insert_value target v f).set (v ∷ f.set)
  insert_value_correct v f a = elim (Bool-cases (length (multiset_insert v f.set) == 1)) [
    | inl q ↦ insert_done v f _ a.ascends (insert_first v f q) refl refl
    | inr q ↦
        let some_there : 0 < length f.set = ground (arith, q, inserted_length v f.set) in
        let it = a.iterator some_there in
        let index = a.index some_there in
        let there : f.percentile_it < length f.set =
          omega (arith, it, range (length f.set) some_there) in
        elim (Bool-cases (leb (upper_place v f.set) f.percentile_it)) [
          | inl p ↦
              insert_done v f _ a.ascends
                (insert_before v f q p (place_split v f a.ascends there true p)) refl
                (omega (arith, it, index))
          | inr p ↦
              insert_done v f _ a.ascends
                (insert_behind v f q p (place_split v f a.ascends there false p)) refl
                (omega (arith, it, index))
        ]
  ]
