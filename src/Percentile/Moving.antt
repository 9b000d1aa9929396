-- ===== src/Percentile/Moving.antt =====
-- MovingPercentileFilter of rtc_base/numerics/moving_percentile_filter.h, over PercentileFilter.
pub mod Window
mod Examples
use tqlib.Prelude.{ℕ, suc, ◌+◌, ◌-◌, List, [], ◌∷◌, ◌++◌, ltb, if◌then◌else◌, get_or, drop}
use tqlib.Prelude.Int.{ℤ, pos}
use tqlib.Percentile.{
  PercentileFilter, empty_filter, insert_value, erase_value, get_percentile_value,
}

-- The members of the class; the list `samples_` has the oldest first.
pub record MovingPercentileFilter : Type 0 where
  pub percentile_filter : PercentileFilter
  pub samples : List ℤ
  pub samples_stored : ℕ
  pub window_size : ℕ

-- The constructor
unfoldable pub new_moving : ℕ → MovingPercentileFilter
new_moving window_size = record {
  percentile_filter = empty_filter;
  samples = [];
  samples_stored = 0;
  window_size = window_size;
}

-- `samples_.front()` of a list that is not empty
abbrev pub front : List ℤ → ℤ
front s = get_or s 0 (pos 0)

module _ (target : ℕ → ℕ) where
  -- `Insert`, its first three lines
  unfoldable pub push_sample : ℤ → MovingPercentileFilter → MovingPercentileFilter
  push_sample value m = record m {
    percentile_filter = insert_value target value m.percentile_filter;
    samples = m.samples ++ value ∷ [];
    samples_stored = suc m.samples_stored;
  }

  -- The body of its test
  unfoldable pub pop_sample : MovingPercentileFilter → MovingPercentileFilter
  pop_sample m = record m {
    percentile_filter = (erase_value target (front m.samples) m.percentile_filter).1;
    samples = drop 1 m.samples;
    samples_stored = m.samples_stored - 1;
  }

  unfoldable pub insert_sample : ℤ → MovingPercentileFilter → MovingPercentileFilter
  unfolding push_sample pop_sample
  insert_sample value m =
      let m1 = push_sample value m in
      if ltb m1.window_size m1.samples_stored then pop_sample m1 else m1

-- `GetFilteredValue`, `Reset` and `GetNumberOfSamplesStored`
unfoldable pub get_filtered_value : MovingPercentileFilter → ℤ
get_filtered_value m = get_percentile_value m.percentile_filter

unfoldable pub reset_moving : MovingPercentileFilter → MovingPercentileFilter
reset_moving m = record m { percentile_filter = empty_filter; samples = []; samples_stored = 0 }

unfoldable pub get_number_of_samples_stored : MovingPercentileFilter → ℕ
get_number_of_samples_stored m = m.samples_stored
