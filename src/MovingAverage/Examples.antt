-- ===== src/MovingAverage/Examples.antt =====
-- Runs of the moving average (moving_average.cc).
use tqlib.Prelude.{◌≡◌, refl, some, List, [], ◌∷◌, arith}
use tqlib.Prelude.Int.{pos, negsuc, ◌+ℤ◌}
use tqlib.MovingAverage.{size, new, add_sample, get_average_rounded_down}
use tqlib.MovingAverage.Window.{Call, sampled, cleared, run, total, run_window}

abbrev calls : List Call
calls = sampled (pos 9) ∷ sampled (pos 2) ∷ sampled (pos 40) ∷ cleared ∷ sampled (pos 7) ∷ []

-- Three samples of -1: the conversion of the sum to an unsigned number shows.
negatives :
    get_average_rounded_down
      (run 3 (sampled (negsuc 0) ∷ sampled (negsuc 0) ∷ sampled (negsuc 0) ∷ []))
    ≡ some (pos 1431655764)
unfolding get_average_rounded_down new add_sample ◌+ℤ◌
negatives = refl

run_window_example : ((run 2 calls).sum ≡ total (pos 9 ∷ pos 2 ∷ [])) × (size (run 2 calls) ≡ 2)
run_window_example = run_window 2 calls (omega arith)
