-- ===== src/Percentile/Examples.antt =====
-- Tests of PercentileFilter at the median of five calls, and its theorems.
use tqlib.Prelude.{
  ℕ, ◌-◌, ◌/◌, ◌≡◌, refl, List, [], ◌∷◌, arith, ◌==◌, if◌then◌else◌, length, get_or,
}
use tqlib.Prelude.Int.{pos, negsuc}
use tqlib.Percentile.{
  PercentileFilter, empty_filter, insert_value, erase_value, get_percentile_value, lower_place,
  upper_place,
}
use tqlib.Percentile.Position.{IsAscending}
use tqlib.Percentile.Multiset.{IsInRange}
use tqlib.Percentile.Correct.{
  FilterCall, call_insert, call_erase, after, get_percentile_value_correct,
}

-- The position for a percentile of 0.5.
abbrev median : ℕ → ℕ
median n = (n - 1) / 2

abbrev some_calls : List FilterCall
some_calls =
    call_insert (pos 5)
    ∷ call_insert (negsuc 0)
    ∷ call_insert (pos 9)
    ∷ call_erase (pos 5)
    ∷ call_insert (pos 2)
    ∷ call_insert (pos 2)
    ∷ []

median_of_calls : get_percentile_value (after median some_calls empty_filter) ≡ pos 2
unfolding get_percentile_value insert_value erase_value empty_filter lower_place upper_place
median_of_calls = refl

median-IsInRange : IsInRange median
median-IsInRange n h = omega (arith, h)

get_percentile_value_correct_example :
    let f = after median some_calls empty_filter in
    IsAscending f.set
    × (get_percentile_value f
        ≡ (if length f.set == 0 then pos 0 else get_or f.set (median (length f.set)) (pos 0)))
get_percentile_value_correct_example =
    get_percentile_value_correct median some_calls median-IsInRange

abbrev two_values : PercentileFilter
two_values = record { set = pos 2 ∷ pos 5 ∷ pos 5 ∷ []; percentile_it = 1; percentile_index = 1 }
