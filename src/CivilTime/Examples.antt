-- ===== src/CivilTime/Examples.antt =====
-- Tests of `TmToSeconds`, and its theorem at a date.
use tqlib.Prelude.{◌≡◌, ◌⊎◌, refl, arith}
use tqlib.Prelude.Int.{pos, negsuc, ◌+ℤ◌, ◌-ℤ◌}
use tqlib.CivilTime.{in_leap_year, days_in_month, is_out, day_number, tm_to_seconds}
use tqlib.CivilTime.Correct.{Date, IsReal, to_tm, seconds, tm_to_seconds_date, tm_to_seconds_error}

-- 2012-02-29 23:59:59
abbrev end_of_leap_day : Date
end_of_leap_day = record { years = 42; month = 1; day = 28; hour = 23; minute = 59; second = 59 }

seconds_of_leap_day : tm_to_seconds (to_tm end_of_leap_day) ≡ pos 1330559999
unfolding tm_to_seconds in_leap_year days_in_month is_out day_number ◌+ℤ◌ ◌-ℤ◌
seconds_of_leap_day = refl

no_leap_day : tm_to_seconds (record (to_tm end_of_leap_day) { tm_year = pos 113 }) ≡ negsuc 0
unfolding tm_to_seconds in_leap_year days_in_month is_out day_number ◌+ℤ◌ ◌-ℤ◌
no_leap_day = refl

tm_to_seconds_date_example : tm_to_seconds (to_tm end_of_leap_day) ≡ pos (seconds end_of_leap_day)
unfolding in_leap_year days_in_month
tm_to_seconds_date_example = tm_to_seconds_date end_of_leap_day (record {
  month_ok = omega arith;
  day_ok = omega arith;
  hour_ok = omega arith;
  minute_ok = omega arith;
  second_ok = omega arith;
})

tm_to_seconds_error_example :
    (let tm = record (to_tm end_of_leap_day) { tm_mon = pos 12 } in
      ((d : Date) × IsReal d × (tm ≡ to_tm d)) ⊎ (tm_to_seconds tm ≡ negsuc 0))
tm_to_seconds_error_example =
    tm_to_seconds_error (record (to_tm end_of_leap_day) { tm_mon = pos 12 })
