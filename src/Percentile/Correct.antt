-- ===== src/Percentile/Correct.antt =====
-- What PercentileFilter returns after any calls (rtc_base/numerics/percentile_filter.h).
use tqlib.Prelude.{
  ℕ, ◌≡◌, refl, ap, inl, inr, List, [], ◌∷◌, arith, Bool-cases, ◌==◌, if◌then◌else◌, length, get_or,
}
use tqlib.Prelude.Int.{ℤ, pos}
use tqlib.Percentile.{
  PercentileFilter, empty_filter, insert_value, erase_value, get_percentile_value,
}
use tqlib.Percentile.Position.{IsAscending}
use tqlib.Percentile.Multiset.{IsInRange, IsAtTarget}
use tqlib.Percentile.Insert.{insert_value_correct}
use tqlib.Percentile.Erase.{erase_value_correct}

pub data FilterCall : Type 0 where
  call_insert : ℤ → FilterCall
  call_erase : ℤ → FilterCall
  call_reset : FilterCall

module _ (target : ℕ → ℕ) where
  abbrev pub after : List FilterCall → PercentileFilter → PercentileFilter
  after [] f = f
  after (call_insert v ∷ cs) f = after cs (insert_value target v f)
  after (call_erase v ∷ cs) f = after cs (erase_value target v f).1
  after (call_reset ∷ cs) f = after cs empty_filter

  pub empty-IsAtTarget : IsAtTarget target empty_filter
  unfolding empty_filter
  empty-IsAtTarget = record {
    ascends = tt;
    iterator = λ h. absurd (omega (arith, h));
    index = λ h. absurd (omega (arith, h));
  }

  after-IsAtTarget :
      (cs : List FilterCall) (f : PercentileFilter)
      → IsInRange target
      → IsAtTarget target f
      → IsAtTarget target (after cs f)
  after-IsAtTarget [] f range a = a
  after-IsAtTarget (call_insert v ∷ cs) f range a =
      after-IsAtTarget cs _ range (insert_value_correct target range v f a).0
  after-IsAtTarget (call_erase v ∷ cs) f range a =
      after-IsAtTarget cs _ range (erase_value_correct target range v f a).0
  after-IsAtTarget (call_reset ∷ cs) f range a = after-IsAtTarget cs _ range empty-IsAtTarget

  pub value_of_target :
      (f : PercentileFilter)
      → IsAtTarget target f
      → get_percentile_value f
        ≡ (if length f.set == 0 then pos 0 else get_or f.set (target (length f.set)) (pos 0))
  unfolding get_percentile_value
  value_of_target f a = elim (Bool-cases (length f.set == 0)) [
    | inl q ↦ rw q refl
    | inr q ↦ rw q (ap (λ i. get_or f.set i (pos 0)) (a.iterator (ground (arith, q))))
  ]

  -- After any calls of `Insert`, `Erase` and `Reset` on a new filter the values are in ascending order,
  -- and `GetPercentileValue` returns the one at the computed position, or 0 where there is none.
  pub get_percentile_value_correct :
      (cs : List FilterCall)
      → IsInRange target
      → let f = after cs empty_filter in
        IsAscending f.set
        × (get_percentile_value f
            ≡ (if length f.set == 0 then pos 0 else get_or f.set (target (length f.set)) (pos 0)))
  get_percentile_value_correct cs range =
      let a = after-IsAtTarget cs empty_filter range empty-IsAtTarget in
      (a.ascends, value_of_target (after cs empty_filter) a)
