-- ===== src/DivideRound.antt =====
-- rtc_base/numerics/divide_round.h: integer division rounded up and to the nearest, for a dividend
-- that is not negative and a positive divisor.
pub mod Laws
mod Examples
use tqlib.Prelude.{ℕ, ◌+◌, ◌-◌, ◌/◌, ◌%◌, ltb, if◌then◌else◌}

-- `DivideRoundUp`
unfoldable pub divide_round_up : ℕ → ℕ → ℕ
divide_round_up dividend divisor =
    let quotient = dividend / divisor in
    let remainder = dividend % divisor in quotient + (if ltb 0 remainder then 1 else 0)

-- `DivideRoundToNearest`
unfoldable pub divide_round_to_nearest : ℕ → ℕ → ℕ
divide_round_to_nearest dividend divisor =
    let half_of_divisor = (divisor - 1) / 2 in
    let quotient = dividend / divisor in
    let remainder = dividend % divisor in
    quotient + (if ltb half_of_divisor remainder then 1 else 0)
