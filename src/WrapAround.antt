-- ===== src/WrapAround.antt =====
-- TimestampWrapAroundHandler of rtc_base/time_utils.cc: 32-bit timestamps made into 64-bit ones. The
-- number of wraps is an exact integer, -1 before the first call.
pub mod Reference
mod Examples
use tqlib.Prelude.{ℕ, zero, suc, ◌+◌, ◌-◌, ◌^◌, Bool, true, false, ◌&&◌, ltb, leb, if◌then◌else◌}
use tqlib.Prelude.Int.{ℤ, pos, negsuc, ◌+ℤ◌, ◌-ℤ◌, ◌*ℤ◌}

pub record TimestampWrapAroundHandler : Type 0 where
  pub last_ts : ℕ
  pub num_wrap : ℤ

unfoldable pub new : TimestampWrapAroundHandler
new = record { last_ts = 0; num_wrap = negsuc 0 }

-- `num_wrap_ == -1`
abbrev pub is_new : ℤ → Bool
is_new (negsuc zero) = true
is_new (negsuc (suc n)) = false
is_new (pos n) = false

-- The last two statements of `Unwrap`.
unfoldable pub accept : ℕ → ℤ → ℤ × TimestampWrapAroundHandler
accept ts wraps = (pos ts +ℤ wraps *ℤ pos (2 ^ 32), record { last_ts = ts; num_wrap = wraps })

-- `Unwrap`
unfoldable pub unwrap : ℕ → TimestampWrapAroundHandler → ℤ × TimestampWrapAroundHandler
unfolding accept
unwrap ts h =
    if is_new h.num_wrap
    then (pos ts, record { last_ts = ts; num_wrap = pos 0 })
    else if ltb ts h.last_ts
    then (if leb 0xf0000000 h.last_ts && ltb ts 0x0fffffff
        then accept ts (h.num_wrap +ℤ pos 1)
        else accept ts h.num_wrap)
    else if ltb 0xf0000000 (ts - h.last_ts)
    then (pos ts +ℤ (h.num_wrap -ℤ pos 1) *ℤ pos (2 ^ 32), h)
    else accept ts h.num_wrap
