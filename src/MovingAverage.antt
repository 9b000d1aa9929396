-- ===== src/MovingAverage.antt =====
-- rtc_base/numerics/moving_average.cc: the average of the last `window_size` samples, over a circular
-- buffer. Samples and their sum are exact integers: the source bounds the window so that its
-- int64_t sum does not overflow. `Size()` is a size_t, so the sum is divided as a uint64_t and the
-- quotient is cut to an int. GetUnroundedAverage, in floating point, is left out.
pub mod Window
pub mod Average
mod Examples
use tqlib.Prelude.{
  ℕ, zero, suc, ◌+◌, ◌-◌, ◌/◌, ◌%◌, ◌^◌, min, Option, none, some, List, ltb, ◌==◌, if◌then◌else◌,
  length, get_or, set, replicate,
}
use tqlib.Prelude.Int.{ℤ, pos, negsuc, ◌+ℤ◌, ◌-ℤ◌}

pub record MovingAverage : Type 0 where
  pub count : ℕ
  pub sum : ℤ
  pub history : List ℤ

unfoldable pub new : ℕ → MovingAverage
new window_size = record { count = 0; sum = pos 0; history = replicate window_size (pos 0) }

-- `AddSample`
unfoldable pub add_sample : ℤ → MovingAverage → MovingAverage
add_sample sample m =
    let count = m.count + 1 in
    let index = count % length m.history in
    let left =
      if ltb (length m.history) count then m.sum -ℤ get_or m.history index (pos 0) else m.sum in
    record { count = count; sum = left +ℤ sample; history = set m.history index sample }

unfoldable pub size : MovingAverage → ℕ
size m = min m.count (length m.history)

-- The conversion of an int64_t to a uint64_t, and of a uint64_t to an int of 32 bits.
abbrev pub to_uint64 : ℤ → ℕ
to_uint64 (pos n) = n % 2 ^ 64
to_uint64 (negsuc n) = 2 ^ 64 - 1 - n % 2 ^ 64

abbrev pub to_int : ℕ → ℤ
to_int n = let low = n % 2 ^ 32 in if ltb low (2 ^ 31) then pos low else negsuc (2 ^ 32 - 1 - low)

-- `GetAverageRoundedDown` and `GetAverageRoundedToClosest`
unfoldable pub get_average_rounded_down : MovingAverage → Option ℤ
unfolding size
get_average_rounded_down m = if m.count == 0 then none else some (to_int (to_uint64 m.sum / size m))

unfoldable pub get_average_rounded_to_closest : MovingAverage → Option ℤ
unfolding size
get_average_rounded_to_closest m =
    if m.count == 0 then none else some (to_int ((to_uint64 m.sum + size m / 2) % 2 ^ 64 / size m))

-- `Reset`
unfoldable pub reset : MovingAverage → MovingAverage
reset m = record m { count = 0; sum = pos 0 }
