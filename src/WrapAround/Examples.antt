-- ===== src/WrapAround/Examples.antt =====
-- Runs of TimestampWrapAroundHandler (time_utils.cc).
use tqlib.Prelude.{◌≡◌, refl}
use tqlib.Prelude.Int.{pos, ◌+ℤ◌, ◌*ℤ◌}
use tqlib.WrapAround.{TimestampWrapAroundHandler, new, unwrap}

abbrev near_end : TimestampWrapAroundHandler
near_end = record { last_ts = 0xfffffff0; num_wrap = pos 2 }

abbrev near_start : TimestampWrapAroundHandler
near_start = record { last_ts = 5; num_wrap = pos 3 }

-- The first call gives its timestamp, and a wrap after it is counted.
first_wrap : (unwrap 7 (unwrap 0xfffffff0 new).1).0 ≡ pos 0x100000007
unfolding unwrap new ◌+ℤ◌ ◌*ℤ◌
first_wrap = refl
