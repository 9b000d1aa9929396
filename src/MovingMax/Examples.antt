-- ===== src/MovingMax/Examples.antt =====
-- Runs of the moving maximum (moving_max_counter.h).
use tqlib.Prelude.{ℕ, ◌≡◌, refl, true, false, some, List, [], ◌∷◌, leb, arith}
use tqlib.Prelude.Int.{pos, ◌-ℤ◌}
use tqlib.MovingMax.{max, add, reset, roll_window, back_before, pop_small}
use tqlib.MovingMax.Window.{Call, added, asked, cleared, recorded, run, IsWindowMax}
use tqlib.MovingMax.Maximum.{max_correct}

leb_total : (a b : ℕ) → leb a b ≡ false → leb b a ≡ true
leb_total a b h = ground arith

leb_trans : (a b c : ℕ) → leb a b ≡ true → leb b c ≡ true → leb a c ≡ true
leb_trans a b c h k = ground arith

abbrev calls : List (Call ℕ)
calls =
    asked (pos 25)
    ∷ added 4 (pos 20)
    ∷ added 9 (pos 12)
    ∷ added 6 (pos 10)
    ∷ cleared
    ∷ added 30 (pos 3)
    ∷ []

max_of_calls : (max (pos 29) (run leb (pos 10) calls)).0 ≡ some 4
unfolding max add reset roll_window back_before pop_small ◌-ℤ◌
max_of_calls = refl

max_correct_example :
    IsWindowMax leb (pos 29 -ℤ pos 10) (recorded calls) (max (pos 29) (run leb (pos 10) calls)).0
max_correct_example =
    max_correct leb leb_total leb_trans (pos 10) (pos 29) calls
      (omega arith, (omega arith, (omega arith, (omega arith, (omega arith, tt)))))
