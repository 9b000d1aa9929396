-- ===== src/Histogram/Examples.antt =====
-- The counter of histogram_percentile_counter.cc at concrete values.
use tqlib.Prelude.{◌+◌, ◌-◌, min, ◌≡◌, refl, [], ◌∷◌, ltb, if◌then◌else◌, get_or, get_elem?, arith}
use tqlib.Histogram.{
  Counter, new, add, get_percentile, merge, zeros, add_high, add_each, add_low_from,
}
use tqlib.Histogram.Percentile.{IsValid, new-IsValid, add-IsValid, values, get_percentile_correct}
use tqlib.Histogram.Merge.{times, merge-times}

-- 1 twice and 7 once, with the boundary at 3
abbrev sample : Counter
sample = record {
  histogram_low = 0 ∷ 2 ∷ 0 ∷ [];
  histogram_high = (7, 1) ∷ [];
  long_tail_boundary = 3;
  total_elements = 3;
  total_elements_low = 2;
}

sample_lem : add 7 1 (add 1 2 (new 3)) ≡ sample
unfolding add add_high new zeros
sample_lem = refl

sample-IsValid : IsValid sample
sample-IsValid = rw (← sample_lem) (add-IsValid 7 1 (add-IsValid 1 2 (new-IsValid 3)))

-- The other counter has a 9, which is lost, and the 7 is counted twice.
merge_loses :
    (times 9 (merge (record sample { histogram_high = (9, 1) ∷ [] }) sample) ≡ 0)
    × (times 7 (merge (record sample { histogram_high = (9, 1) ∷ [] }) sample) ≡ 2)
unfolding merge add_each add_low_from add add_high
merge_loses = (refl, refl)

get_percentile_correct_example : get_percentile 2 sample ≡ get_elem? (values sample) (min 2 (3 - 1))
get_percentile_correct_example = get_percentile_correct 2 sample sample-IsValid (omega arith)

merge-times_example :
    let sum = times 7 sample + get_or sample.histogram_low 7 0 in
    times 7 (merge sample sample) ≡ (if ltb 7 3 then sum else sum + sum)
merge-times_example = merge-times 7 sample sample sample-IsValid
