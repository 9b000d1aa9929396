-- ===== src/CivilTime/Calendar.antt =====
-- `TmToSeconds` against a count of days, year by year and month by month (rtc_base/time_utils.cc).
use tqlib.Prelude.{
  subst, ℕ, zero, suc, ◌+◌, ◌-◌, ◌*◌, ◌/◌, ◌≤◌, ◌<◌, ◌≡◌, refl, sym, ◌⊎◌, inl, inr, Bool, true,
  false, ◌&&◌, arith, Bool-cases, leb, if◌then◌else◌, get_or,
}
use tqlib.CivilTime.{cumul_mdays, in_leap_year, days_in_month, day_number}

-- The reference: the days of the first `n` years from 1970 on, and of the first months of a year.
abbrev pub days_of_years : ℕ → ℕ
days_of_years zero = 0
days_of_years (suc n) = days_of_years n + (if in_leap_year (1970 + n) then 366 else 365)

abbrev pub days_of_months : Bool → ℕ → ℕ
days_of_months leap zero = 0
days_of_months leap (suc m) = days_of_months leap m + days_in_month leap m

leap_count : ℕ → ℕ
leap_count year = (year / 4 - 1970 / 4) - (year / 100 - 1970 / 100) + (year / 400 - 1970 / 400)

-- One more year adds a leap day when it is a leap year.
leap_count-suc :
    (year : ℕ)
    → 1970 ≤ year
    → leap_count (suc year) ≡ leap_count year + (if in_leap_year (suc year) then 1 else 0)
unfolding leap_count in_leap_year
leap_count-suc year h = ground arith

first_year : in_leap_year (1970 + 0) ≡ false
unfolding in_leap_year
first_year = refl

next_year :
    (n a b c d : ℕ) (leap : Bool)
    → a + (if leap then 1 else 0) ≡ n * 365 + b
    → c ≡ b + d
    → a + (if leap then 366 else 365) + d ≡ suc n * 365 + c
next_year n a b c d true h k = omega (arith, h, k)
next_year n a b c d false h k = omega (arith, h, k)

leap_days :
    (n : ℕ)
    → days_of_years n + (if in_leap_year (1970 + n) then 1 else 0) ≡ n * 365 + leap_count (1970 + n)
unfolding leap_count
leap_days zero = rw first_year (omega arith)
leap_days (suc n) =
    let same : suc (1970 + n) ≡ 1970 + suc n = omega arith in
    next_year n _ (leap_count (1970 + n)) _ _ (in_leap_year (1970 + n)) (leap_days n)
      (rw same at (leap_count-suc (1970 + n) (omega arith)))

days_of_years-le : (n : ℕ) → n * 365 ≤ days_of_years n
days_of_years-le zero = omega arith
days_of_years-le (suc n) = elim (Bool-cases (in_leap_year (1970 + n))) [
  | inl e ↦ rw e (omega (arith, days_of_years-le n))
  | inr e ↦ rw e (omega (arith, days_of_years-le n))
]

-- A property of the numbers below a bound, one by one.
abbrev Below : (ℕ → Type 0) → ℕ → Type 0
Below P zero = Unit
Below P (suc n) = P n × Below P n

below : (P : ℕ → Type 0) (n m : ℕ) → Below P n → m < n → P m
below P zero m h k = absurd (omega arith)
below P (suc n) m (p, h) k = elim (split n m k) [
  | inl e ↦ subst P (sym e) p
  | inr l ↦ below P n m h l
]
  where
    split : (n m : ℕ) → m < suc n → (m ≡ n) ⊎ (m < n)
    split n m k = omega arith

abbrev MonthsAgree : Bool → ℕ → Type 0
MonthsAgree leap m =
    get_or cumul_mdays m 0 + (if leap && leb 2 m then 1 else 0) ≡ days_of_months leap m

months : (leap : Bool) (m : ℕ) → m < 12 → MonthsAgree leap m
unfolding days_in_month
months true m h =
    below (MonthsAgree true) 12 m
      (
        refl,
        (refl, (refl, (refl, (refl, (refl, (refl, (refl, (refl, (refl, (refl, (refl, tt))))))))))),
      )
      h
months false m h =
    below (MonthsAgree false) 12 m
      (
        refl,
        (refl, (refl, (refl, (refl, (refl, (refl, (refl, (refl, (refl, (refl, (refl, tt))))))))))),
      )
      h

-- The day of `TmToSeconds` and the count of days.
pub day_number-days :
    (n month day : ℕ)
    → month < 12
    → n * 365 + day_number (1970 + n) month day
      ≡ days_of_years n + days_of_months (in_leap_year (1970 + n)) month + day
unfolding day_number leap_count
day_number-days n month day h =
    split (in_leap_year (1970 + n)) (leap_days n) (months (in_leap_year (1970 + n)) month h)
  where
    split :
        (leap : Bool)
        → days_of_years n + (if leap then 1 else 0) ≡ n * 365 + leap_count (1970 + n)
        → MonthsAgree leap month
        → n * 365
            + (if leap && leb month 1
                then day + get_or cumul_mdays month 0 + leap_count (1970 + n) - 1
                else day + get_or cumul_mdays month 0 + leap_count (1970 + n))
          ≡ days_of_years n + days_of_months leap month + day
    split true l m = ground (arith, l, m, days_of_years-le n)
    split false l m = ground (arith, l, m)
