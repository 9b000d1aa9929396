-- ===== src/DivideRound/Examples.antt =====
-- The rounded divisions of divide_round.h at concrete numbers.
use tqlib.Prelude.{◌≡◌, refl}
use tqlib.DivideRound.{divide_round_up}

rounds_up : divide_round_up 4001 1000 ≡ 5
unfolding divide_round_up
rounds_up = refl
