-- ===== src/CivilTime.antt =====
-- `TmToSeconds` of rtc_base/time_utils.cc: the seconds from 1970 to a date and time. The fields of `tm`
-- are exact integers. Behind the checks all numbers are natural, and no difference of them is
-- negative.
pub mod Calendar
pub mod Correct
mod Examples
use tqlib.Prelude.{
  ℕ, zero, suc, ◌+◌, ◌-◌, ◌*◌, ◌/◌, ◌%◌, Bool, true, false, not, ◌&&◌, ◌||◌, List, [], ◌∷◌, ltb,
  leb, ◌==◌, if◌then◌else◌, get_or,
}
use tqlib.Prelude.Int.{ℤ, pos, negsuc, pos_part, ◌+ℤ◌, ◌-ℤ◌, ltb_ℤ}

pub record Tm : Type 0 where
  pub tm_sec : ℤ
  pub tm_min : ℤ
  pub tm_hour : ℤ
  pub tm_mday : ℤ
  pub tm_mon : ℤ
  pub tm_year : ℤ

-- `mdays` and `cumul_mdays`
abbrev pub mdays : List ℕ
mdays = 31 ∷ 28 ∷ 31 ∷ 30 ∷ 31 ∷ 30 ∷ 31 ∷ 31 ∷ 30 ∷ 31 ∷ 30 ∷ 31 ∷ []

abbrev pub cumul_mdays : List ℕ
cumul_mdays = 0 ∷ 31 ∷ 59 ∷ 90 ∷ 120 ∷ 151 ∷ 181 ∷ 212 ∷ 243 ∷ 273 ∷ 304 ∷ 334 ∷ []

-- `expiry_in_leap_year`
unfoldable pub in_leap_year : ℕ → Bool
in_leap_year year = year % 4 == 0 && (not (year % 100 == 0) || year % 400 == 0)

-- `mdays[month] + (expiry_in_leap_year && month == 2 - 1)`
unfoldable pub days_in_month : Bool → ℕ → ℕ
days_in_month leap month = get_or mdays month 0 + (if leap && month == 1 then 1 else 0)

-- `value < 0 || value > last`
unfoldable pub is_out : ℤ → ℕ → Bool
is_out value last = ltb_ℤ value (pos 0) || ltb_ℤ (pos last) value

-- `day`, once it counts from the first day of 1970 but for the 365 days of each year
unfoldable pub day_number : ℕ → ℕ → ℕ → ℕ
day_number year month day =
    let in_year = day + get_or cumul_mdays month 0 in
    let leap_days = (year / 4 - 1970 / 4) - (year / 100 - 1970 / 100) + (year / 400 - 1970 / 400) in
    if in_leap_year year && leb month 1 then in_year + leap_days - 1 else in_year + leap_days

unfoldable pub tm_to_seconds : Tm → ℤ
tm_to_seconds tm =
    let year = tm.tm_year +ℤ pos 1900 in
    let day = tm.tm_mday -ℤ pos 1 in
    let month = pos_part tm.tm_mon in
    let days = days_in_month (in_leap_year (pos_part year)) month in
    if ltb_ℤ year (pos 1970)
    then negsuc 0
    else if is_out tm.tm_mon 11
    then negsuc 0
    else if ltb_ℤ day (pos 0) || not (ltb_ℤ day (pos days))
    then negsuc 0
    else if is_out tm.tm_hour 23
    then negsuc 0
    else if is_out tm.tm_min 59
    then negsuc 0
    else if is_out tm.tm_sec 59
    then negsuc 0
    else pos (
        ((((pos_part year - 1970) * 365 + day_number (pos_part year) month (pos_part day)) * 24
                + pos_part tm.tm_hour)
              * 60
            + pos_part tm.tm_min)
          * 60
        + pos_part tm.tm_sec)
