-- ===== src/Histogram.antt =====
-- rtc_base/numerics/histogram_percentile_counter.cc: counts of values, those below a boundary in a
-- vector and the others in a map. Counts are exact numbers: the source's size_t does not overflow
-- here. The number of elements that a percentile skips is computed by floating point from the total
-- and the fraction, and is a parameter.
mod Examples
pub mod Percentile
pub mod Merge
use tqlib.Prelude.{
  ℕ, zero, suc, ◌+◌, ◌-◌, Option, none, some, List, [], ◌∷◌, ltb, ◌==◌, if◌then◌else◌, get_or, set,
}

-- `std::map<uint32_t, size_t>`, sorted by its keys
abbrev pub High : Type 0
High = List (ℕ × ℕ)

pub record Counter : Type 0 where
  pub histogram_low : List ℕ
  pub histogram_high : High
  pub long_tail_boundary : ℕ
  pub total_elements : ℕ
  pub total_elements_low : ℕ

-- The constructor: a vector of zeros up to the boundary.
zeros : ℕ → List ℕ
zeros zero = []
zeros (suc n) = 0 ∷ zeros n

unfoldable pub new : ℕ → Counter
unfolding zeros
new boundary = record {
  histogram_low = zeros boundary;
  histogram_high = [];
  long_tail_boundary = boundary;
  total_elements = 0;
  total_elements_low = 0;
}

-- `histogram_high_[value] += count`
unfoldable pub add_high : ℕ → ℕ → High → High
add_high value count [] = (value, count) ∷ []
add_high value count ((k, n) ∷ m) =
    if ltb k value
    then (k, n) ∷ add_high value count m
    else if k == value
    then (k, n + count) ∷ m
    else (value, count) ∷ (k, n) ∷ m

-- `Add(value, count)`
unfoldable pub add : ℕ → ℕ → Counter → Counter
add value count c =
    if ltb value c.long_tail_boundary
    then record c {
      histogram_low = set c.histogram_low value (get_or c.histogram_low value 0 + count);
      total_elements_low = c.total_elements_low + count;
      total_elements = c.total_elements + count;
    }
    else record c {
      histogram_high = add_high value count c.histogram_high;
      total_elements = c.total_elements + count;
    }

-- The loop of `GetPercentile` over the vector.
unfoldable pub find_low : ℕ → ℕ → List ℕ → Option ℕ
find_low skip value [] = none
find_low skip value (n ∷ rest) =
    let found = find_low (skip - n) (value + 1) rest in if ltb skip n then some value else found

-- The loop of `GetPercentile` over the map.
unfoldable pub find_high : ℕ → High → Option ℕ
find_high skip [] = none
find_high skip ((value, n) ∷ rest) =
    let found = find_high (skip - n) rest in if ltb skip n then some value else found

-- `GetPercentile`, with the number of elements to skip as computed from the fraction
unfoldable pub get_percentile : ℕ → Counter → Option ℕ
unfolding find_low find_high
get_percentile elements_to_skip c =
    if c.total_elements == 0
    then none
    else let skip =
        if ltb elements_to_skip c.total_elements then elements_to_skip else c.total_elements - 1 in
      if ltb skip c.total_elements_low
      then find_low skip 0 c.histogram_low
      else find_high (skip - c.total_elements_low) c.histogram_high

-- The second loop of `Add(other)`: it goes over the map of the counter itself, and not of `other`.
-- `Add(it.first, it.second)` on a key of the map it goes over changes the entry under the iterator.
unfoldable pub add_each : High → Counter → Counter
add_each [] c = c
add_each ((value, n) ∷ rest) c = add_each rest (add value n c)

-- The first loop of `Add(other)`, from `value` on.
unfoldable pub add_low_from : ℕ → List ℕ → Counter → Counter
add_low_from value [] c = c
add_low_from value (n ∷ rest) c = add_low_from (value + 1) rest (add value n c)

-- `Add(other)`. The map of `c` keeps its keys during the second loop, if they are not below the
-- boundary, and each entry is read before it is written: so the loop reads the old entries.
unfoldable pub merge : Counter → Counter → Counter
unfolding add_each add_low_from
merge other c = let c' = add_low_from 0 other.histogram_low c in add_each c'.histogram_high c'
