-- ===== src/Logging/Calendar.antt =====
-- The calendar arithmetic of `timestamp` in picam/src/logging.cpp, against the day count of the
-- Gregorian calendar.
use native.Mathlib.Numerals.{add-one}
use hand_motion_capture.Prelude.{
  ℕ, zero, suc, ◌+◌, ◌-◌, ◌*◌, ◌/◌, ◌≤◌, ◌<◌, ◌≡◌, ◌&&◌, List, [], ◌∷◌, arith, ltb, if◌then◌else◌,
  get_or, Returns, Returns-some,
}
use hand_motion_capture.Logging.{
  Found, Civil, is_leap_year, seconds_in_year, seconds_in_month, find_year, find_month, civil_time,
}

-- Days from the start of 1970 to the start of a year, in closed form.
unfoldable pub epoch_days : ℕ → ℕ
epoch_days year = let p = year - 1 in p * 365 + p / 4 - p / 100 + p / 400 - 719162

-- Days from the start of a year to the start of a month of it.
abbrev pub month_days : List ℕ
month_days = 0 ∷ 0 ∷ 31 ∷ 59 ∷ 90 ∷ 120 ∷ 151 ∷ 181 ∷ 212 ∷ 243 ∷ 273 ∷ 304 ∷ 334 ∷ 365 ∷ []

unfoldable pub month_start : ℕ → ℕ → ℕ
month_start year month =
    get_or month_days month 0 + (if is_leap_year year && ltb 2 month then 1 else 0)

epoch_days-suc :
    (year : ℕ)
    → 1970 ≤ year
    → epoch_days (year + 1) * 86400 ≡ epoch_days year * 86400 + seconds_in_year year
unfolding epoch_days seconds_in_year is_leap_year
epoch_days-suc year h = ground arith

month_start-suc :
    (year month : ℕ)
    → 1 ≤ month
    → month ≤ 12
    → month_start year (suc month) * 86400
      ≡ month_start year month * 86400 + seconds_in_month year month
unfolding month_start seconds_in_month
month_start-suc year zero l h = absurd (omega arith)
month_start-suc year (suc zero) l h = ground arith
month_start-suc year (suc (suc zero)) l h = ground arith
month_start-suc year (suc (suc (suc zero))) l h = ground arith
month_start-suc year (suc (suc (suc (suc zero)))) l h = ground arith
month_start-suc year (suc (suc (suc (suc (suc zero))))) l h = ground arith
month_start-suc year (suc (suc (suc (suc (suc (suc zero)))))) l h = ground arith
month_start-suc year (suc (suc (suc (suc (suc (suc (suc zero))))))) l h = ground arith
month_start-suc year (suc (suc (suc (suc (suc (suc (suc (suc zero)))))))) l h = ground arith
month_start-suc year (suc (suc (suc (suc (suc (suc (suc (suc (suc zero))))))))) l h = ground arith
month_start-suc year (suc (suc (suc (suc (suc (suc (suc (suc (suc (suc zero)))))))))) l h =
    ground arith
month_start-suc year (suc (suc (suc (suc (suc (suc (suc (suc (suc (suc (suc zero))))))))))) l h =
    ground arith
month_start-suc year (suc (suc (suc (suc (suc (suc (suc (suc (suc (suc (suc (suc zero)))))))))))) l
      h =
    ground arith
month_start-suc year
      (suc (suc (suc (suc (suc (suc (suc (suc (suc (suc (suc (suc (suc month))))))))))))) l h =
    absurd (omega arith)

month_start-next :
    (year month : ℕ)
    → 1 ≤ month
    → month ≤ 12
    → month_start year (month + 1) * 86400
      ≡ month_start year month * 86400 + seconds_in_month year month
month_start-next year month l h = rw add-one (month_start-suc year month l h)

-- Where the year loop stops: in the year that holds the instant.
record YearOf (seconds : ℕ) (f : Found) : Type 0 where
  since : 1970 ≤ f.index
  within : f.left < seconds_in_year f.index
  adds_up : epoch_days f.index * 86400 + f.left ≡ seconds

seconds_in_year_bounds :
    (year : ℕ) → (31536000 ≤ seconds_in_year year) × (seconds_in_year year ≤ 31622400)
unfolding seconds_in_year
seconds_in_year_bounds year = ground arith

find_year-YearOf :
    (fuel year seconds total : ℕ)
    → 1970 ≤ year
    → seconds < fuel * 31536000
    → epoch_days year * 86400 + seconds ≡ total
    → Returns (YearOf total) (find_year fuel year seconds)
unfolding find_year
find_year-YearOf zero year seconds total y h e = absurd (omega arith)
find_year-YearOf (suc fuel) year seconds total y h e = ground (
  arith,
  epoch_days-suc year,
  seconds_in_year_bounds year,
  find_year-YearOf fuel (year + 1) (seconds - seconds_in_year year) total,
)

-- Where the month loop stops: in the month that holds the instant.
record MonthOf (year seconds : ℕ) (f : Found) : Type 0 where
  in_year : (1 ≤ f.index) × (f.index ≤ 12)
  within : f.left < seconds_in_month year f.index
  adds_up : month_start year f.index * 86400 + f.left ≡ seconds

month_start_ends :
    (year : ℕ) → (month_start year 1 ≡ 0) × (month_start year 13 * 86400 ≡ seconds_in_year year)
unfolding month_start seconds_in_year
month_start_ends year = ground arith

-- With one round left for each month to come, the loop stops by December.
find_month-MonthOf :
    (fuel year month seconds total : ℕ)
    → 1 ≤ month
    → month + fuel ≡ 13
    → month_start year month * 86400 + seconds ≡ total
    → total < seconds_in_year year
    → Returns (MonthOf year total) (find_month fuel year month seconds)
unfolding find_month
find_month-MonthOf zero year month seconds total m k e h =
    let last : month ≡ 13 = omega arith in
    absurd (omega (arith, month_start_ends year, rw last at e))
find_month-MonthOf (suc fuel) year month seconds total m k e h = ground (
  arith,
  month_start-next year month,
  find_month-MonthOf fuel year (month + 1) (seconds - seconds_in_month year month) total,
)

-- The fields of `timestamp` at an instant, `seconds` and `nanos` after the start of 1970.
pub record IsCivil (seconds nanos : ℕ) (c : Civil) : Type 0 where
  pub month_in : (1 ≤ c.month) × (c.month ≤ 12)
  pub day_in : (1 ≤ c.day) × (c.day * 86400 ≤ seconds_in_month c.year c.month)
  pub time_in : (c.hour < 24) × (c.minute < 60) × (c.second < 60)
  pub fraction_in : (c.millis < 1000) × (c.micros < 1000)
  pub adds_up :
      (epoch_days c.year + month_start c.year c.month + (c.day - 1)) * 86400
        + c.hour * 3600
        + c.minute * 60
        + c.second
      ≡ seconds
  pub fraction : (c.millis * 1000 + c.micros) ≡ nanos / 1000

epoch_starts : (seconds : ℕ) → epoch_days 1970 * 86400 + seconds ≡ seconds
unfolding epoch_days
epoch_starts seconds = omega arith

-- For every instant with nanoseconds below 10^9, the loops of `timestamp` end within their fuel, and
-- their fields are in range and give back the instant by the days of the proleptic Gregorian
-- calendar, to the microsecond.
pub civil_time-IsCivil :
    (seconds nanos : ℕ)
    → nanos < 1_000_000_000
    → Returns (IsCivil seconds nanos) (civil_time seconds nanos)
unfolding civil_time
civil_time-IsCivil seconds nanos h =
    let (y, ey, py) =
      Returns-some (YearOf seconds) (find_year (seconds / 31536000 + 1) 1970 seconds) (
        find_year-YearOf (seconds / 31536000 + 1) 1970 seconds seconds (omega arith) (omega arith)
          (epoch_starts seconds)) in
    let (m, em, pm) = Returns-some (MonthOf y.index y.left) (find_month 12 y.index 1 y.left) (
      find_month-MonthOf 12 y.index 1 y.left y.left (omega arith) (omega arith)
        (omega (arith, month_start_ends y.index)) py.within) in
    ground (arith, month_start-next y.index m.index)
