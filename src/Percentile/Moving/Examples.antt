-- ===== src/Percentile/Moving/Examples.antt =====
-- Runs of MovingPercentileFilter (rtc_base/numerics/moving_percentile_filter.h).
use mathlib.Core.List.{Perm}
use tqlib.Prelude.{
  ℕ, ◌-◌, ◌/◌, ◌≡◌, refl, List, [], ◌∷◌, min, arith, ◌==◌, if◌then◌else◌, length, get_or, take,
}
use tqlib.Prelude.Int.{pos, negsuc}
use tqlib.Percentile.{
  empty_filter, insert_value, erase_value, get_percentile_value, lower_place, upper_place,
}
use tqlib.Percentile.Position.{IsAscending}
use tqlib.Percentile.Multiset.{IsInRange}
use tqlib.Percentile.Moving.{
  new_moving, insert_sample, reset_moving, get_filtered_value, get_number_of_samples_stored,
}
use tqlib.Percentile.Moving.Window.{
  Call, sampled, cleared, recorded, backwards, run, moving_filter_correct,
}

-- The position for a percentile of 0.5.
abbrev middle : ℕ → ℕ
middle n = (n - 1) / 2

middle-IsInRange : IsInRange middle
middle-IsInRange n h = omega (arith, h)

abbrev five_calls : List Call
five_calls =
    sampled (pos 4)
    ∷ sampled (negsuc 6)
    ∷ sampled (pos 9)
    ∷ sampled (pos 2)
    ∷ cleared
    ∷ sampled (pos 1)
    ∷ []

median_of_window : get_filtered_value (run middle 3 five_calls) ≡ pos 4
unfolding get_filtered_value get_percentile_value insert_sample reset_moving new_moving insert_value
    erase_value empty_filter lower_place upper_place
median_of_window = refl

moving_filter_correct_example :
    let m = run middle 3 five_calls in
    let set = m.percentile_filter.set in
    Perm set (backwards (take 3 (recorded five_calls)))
    × IsAscending set
    × (get_number_of_samples_stored m ≡ min 3 (length (recorded five_calls)))
    × (get_filtered_value m
        ≡ (if length set == 0 then pos 0 else get_or set (middle (length set)) (pos 0)))
moving_filter_correct_example = moving_filter_correct middle 3 five_calls middle-IsInRange
