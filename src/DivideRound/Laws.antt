-- ===== src/DivideRound/Laws.antt =====
-- What the rounded divisions of divide_round.h compute.
use tqlib.Prelude.{ℕ, ◌+◌, ◌*◌, ◌≤◌, ◌<◌, arith}
use native.Mathlib.Nat.{div-add-mod}
use tqlib.DivideRound.{divide_round_up, divide_round_to_nearest}

-- For a positive divisor, `DivideRoundUp` is the ceiling: the least number whose product with the
-- divisor reaches the dividend.
pub divide_round_up_ceiling :
    (n d : ℕ) → 0 < d → (n ≤ d * divide_round_up n d) × (d * divide_round_up n d < n + d)
unfolding divide_round_up
divide_round_up_ceiling n d h = grind (arith, div-add-mod n d)

-- For a positive divisor, twice the distance between the dividend and the product of the divisor
-- with `DivideRoundToNearest` is at most the divisor, and a tie is rounded up.
pub divide_round_to_nearest_closest :
    (n d : ℕ)
    → 0 < d
    → (2 * (d * divide_round_to_nearest n d) ≤ 2 * n + d)
      × (2 * n < 2 * (d * divide_round_to_nearest n d) + d)
unfolding divide_round_to_nearest
divide_round_to_nearest_closest n d h = grind (arith, div-add-mod n d)
