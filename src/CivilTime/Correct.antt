-- ===== src/CivilTime/Correct.antt =====
-- What `TmToSeconds` returns for a date, and that it returns -1 for all else (rtc_base/time_utils.cc).
use tqlib.Prelude.{
  ℕ, ◌+◌, ◌-◌, ◌*◌, ◌≤◌, ◌<◌, ◌≡◌, refl, ◌∙◌, ap, ◌⊎◌, inl, inr, false, not, ◌||◌, arith,
  Bool-cases,
}
use tqlib.Prelude.Int.{ℤ, pos, negsuc, pos_part, ◌+ℤ◌, ◌-ℤ◌, ltb_ℤ}
use tqlib.CivilTime.{Tm, in_leap_year, days_in_month, is_out, day_number, tm_to_seconds}
use tqlib.CivilTime.Calendar.{days_of_years, days_of_months, day_number-days}

-- A date and time from 1970 on, each number from 0.
pub record Date : Type 0 where
  pub years : ℕ
  pub month : ℕ
  pub day : ℕ
  pub hour : ℕ
  pub minute : ℕ
  pub second : ℕ

pub record IsReal (d : Date) : Type 0 where
  pub month_ok : d.month < 12
  pub day_ok : d.day < days_in_month (in_leap_year (1970 + d.years)) d.month
  pub hour_ok : d.hour < 24
  pub minute_ok : d.minute < 60
  pub second_ok : d.second < 60

abbrev pub to_tm : Date → Tm
to_tm d = record {
  tm_sec = pos d.second;
  tm_min = pos d.minute;
  tm_hour = pos d.hour;
  tm_mday = pos (d.day + 1);
  tm_mon = pos d.month;
  tm_year = pos (d.years + 70);
}

-- The seconds from 1970 to a date, by the count of days.
abbrev pub seconds : Date → ℕ
seconds d =
    let days =
      days_of_years d.years + days_of_months (in_leap_year (1970 + d.years)) d.month + d.day in
    ((days * 24 + d.hour) * 60 + d.minute) * 60 + d.second

not_out : (n last : ℕ) → n ≤ last → is_out (pos n) last ≡ false
unfolding is_out
not_out n last h = ground arith

this_year : (n : ℕ) → pos (n + 70) +ℤ pos 1900 ≡ pos (1970 + n)
unfolding ◌+ℤ◌
this_year n = ground arith

day_before : (d : ℕ) → pos (d + 1) -ℤ pos 1 ≡ pos d
unfolding ◌-ℤ◌
day_before d = ground arith

not_before : (n : ℕ) → ltb_ℤ (pos (1970 + n)) (pos 1970) ≡ false
not_before n = ground arith

years_back : (n : ℕ) → 1970 + n - 1970 ≡ n
years_back n = omega arith

in_month :
    (d days : ℕ) → d < days → (ltb_ℤ (pos d) (pos 0) || not (ltb_ℤ (pos d) (pos days))) ≡ false
in_month d days h = ground arith

-- For a date the code returns the seconds of the count of days.
pub tm_to_seconds_date : (d : Date) → IsReal d → tm_to_seconds (to_tm d) ≡ pos (seconds d)
unfolding tm_to_seconds
tm_to_seconds_date d r =
    rw
      (
        this_year d.years,
        day_before d.day,
        not_before d.years,
        not_out d.month 11 (omega (arith, r.month_ok)),
        in_month d.day _ r.day_ok,
        not_out d.hour 23 (omega (arith, r.hour_ok)),
        not_out d.minute 59 (omega (arith, r.minute_ok)),
        not_out d.second 59 (omega (arith, r.second_ok)),
      )
      (ap (λ k. pos (((k * 24 + d.hour) * 60 + d.minute) * 60 + d.second))
        (ap (λ y. y * 365 + day_number (1970 + d.years) d.month d.day) (years_back d.years)
          ∙ day_number-days d.years d.month d.day r.month_ok))

-- The other way round: what the checks let pass.
in_bounds :
    (z : ℤ) (last : ℕ) → is_out z last ≡ false → (pos_part z ≤ last) × (z ≡ pos (pos_part z))
unfolding is_out
in_bounds z last h = (ground (arith, h), ground (arith, h))

year_in_bounds :
    (z : ℤ) → ltb_ℤ (z +ℤ pos 1900) (pos 1970) ≡ false → z ≡ pos ((pos_part z - 70) + 70)
unfolding ◌+ℤ◌
year_in_bounds z h = ground (arith, h)

year_number :
    (z : ℤ)
    → ltb_ℤ (z +ℤ pos 1900) (pos 1970) ≡ false
    → pos_part (z +ℤ pos 1900) ≡ 1970 + (pos_part z - 70)
unfolding ◌+ℤ◌
year_number z h = ground (arith, h)

day_in_bounds :
    (z : ℤ) (days : ℕ)
    → (ltb_ℤ (z -ℤ pos 1) (pos 0) || not (ltb_ℤ (z -ℤ pos 1) (pos days))) ≡ false
    → (pos_part z - 1 < days) × (z ≡ pos ((pos_part z - 1) + 1))
unfolding ◌-ℤ◌
day_in_bounds z days h = (ground (arith, h), ground (arith, h))

real :
    (tm : Tm)
    → ltb_ℤ (tm.tm_year +ℤ pos 1900) (pos 1970) ≡ false
    → is_out tm.tm_mon 11 ≡ false
    → (let days =
          days_in_month (in_leap_year (pos_part (tm.tm_year +ℤ pos 1900))) (pos_part tm.tm_mon) in
        let day = tm.tm_mday -ℤ pos 1 in (ltb_ℤ day (pos 0) || not (ltb_ℤ day (pos days))) ≡ false)
    → is_out tm.tm_hour 23 ≡ false
    → is_out tm.tm_min 59 ≡ false
    → is_out tm.tm_sec 59 ≡ false
    → (d : Date) × IsReal d × (tm ≡ to_tm d)
real tm y m d h i s =
    let day = day_in_bounds tm.tm_mday _ d in
    let month = in_bounds tm.tm_mon 11 m in
    let hour = in_bounds tm.tm_hour 23 h in
    let minute = in_bounds tm.tm_min 59 i in
    let second = in_bounds tm.tm_sec 59 s in
    (
      record {
        years = pos_part tm.tm_year - 70;
        month = pos_part tm.tm_mon;
        day = pos_part tm.tm_mday - 1;
        hour = pos_part tm.tm_hour;
        minute = pos_part tm.tm_min;
        second = pos_part tm.tm_sec;
      },
      record {
        month_ok = omega (arith, month.0);
        day_ok = rw (year_number tm.tm_year y) at day.0;
        hour_ok = omega (arith, hour.0);
        minute_ok = omega (arith, minute.0);
        second_ok = omega (arith, second.0);
      },
      λ j. record {
        tm_sec = second.1 j;
        tm_min = minute.1 j;
        tm_hour = hour.1 j;
        tm_mday = day.1 j;
        tm_mon = month.1 j;
        tm_year = year_in_bounds tm.tm_year y j;
      },
    )

-- Any value of `tm` is that of a date from 1970 on, or the code returns -1.
pub tm_to_seconds_error :
    (tm : Tm) → ((d : Date) × IsReal d × (tm ≡ to_tm d)) ⊎ (tm_to_seconds tm ≡ negsuc 0)
unfolding tm_to_seconds
tm_to_seconds_error tm = elim (Bool-cases (ltb_ℤ (tm.tm_year +ℤ pos 1900) (pos 1970))) [
  | inl y ↦ inr (rw y refl)
  | inr y ↦ elim (Bool-cases (is_out tm.tm_mon 11)) [
    | inl m ↦ inr (rw (y, m) refl)
    | inr m ↦
        let days =
          days_in_month (in_leap_year (pos_part (tm.tm_year +ℤ pos 1900))) (pos_part tm.tm_mon) in
        let day = tm.tm_mday -ℤ pos 1 in
        elim (Bool-cases (ltb_ℤ day (pos 0) || not (ltb_ℤ day (pos days)))) [
          | inl d ↦ inr (rw (y, m, d) refl)
          | inr d ↦ elim (Bool-cases (is_out tm.tm_hour 23)) [
            | inl h ↦ inr (rw (y, m, d, h) refl)
            | inr h ↦ elim (Bool-cases (is_out tm.tm_min 59)) [
              | inl i ↦ inr (rw (y, m, d, h, i) refl)
              | inr i ↦ elim (Bool-cases (is_out tm.tm_sec 59)) [
                | inl s ↦ inr (rw (y, m, d, h, i, s) refl)
                | inr s ↦ inl (real tm y m d h i s)
              ]
            ]
          ]
        ]
  ]
]
