-- ===== src/Logging.antt =====
-- picam/src/logging.cpp (toolkit/common/src/logging.cpp is the same text): numbers and the UTC
-- timestamp written without library calls, and the log line. `buffer[(*offset)++] = c` appends to
-- a list of bytes. The clock is an argument; its seconds are not negative (1970 or later).
pub mod Digits
pub mod Calendar
pub mod Line
pub mod File
pub mod Bounds
mod Tests
use hand_motion_capture.Prelude.{
  ℕ, zero, suc, ◌+◌, ◌-◌, ◌*◌, ◌/◌, ◌%◌, ◌^◌, Bool, not, ◌&&◌, ◌||◌, List, [], ◌∷◌, ◌++◌, Option,
  none, some, ℤ, pos, negsuc, pos_part, ltb, ◌==◌, if◌then◌else◌, get_or,
}

-- The loops of `i_to_str`: `temp` newest digit first, which is the order in which it is copied out.
-- The fuel is the size of `temp`.
unfoldable pub collect : ℕ → ℕ → List ℕ → List ℕ
collect zero value temp = temp
collect (suc room) value temp =
    let rest = collect room (value / 10) ((b'0' + value % 10) ∷ temp) in
    if value == 0 then temp else rest

-- `-value`, which overflows at -2 ^ 31 and is then the same pattern again.
unfoldable pub negate : ℤ → ℤ
negate (pos zero) = pos 0
negate (pos (suc n)) = negsuc n
negate (negsuc n) = if suc n == 2 ^ 31 then negsuc n else pos (suc n)

-- A value that is not positive has no digits: the loop test is `value > 0`.
unfoldable pub i_to_str : ℤ → List ℕ
unfolding collect negate
i_to_str (pos zero) = b'0' ∷ []
i_to_str (pos (suc n)) = collect 16 (suc n) []
i_to_str (negsuc n) = b'-' ∷ collect 16 (pos_part (negate (negsuc n))) []

unfoldable pub is_leap_year : ℕ → Bool
is_leap_year year = (year % 4 == 0 && not (year % 100 == 0)) || year % 400 == 0

unfoldable pub seconds_in_year : ℕ → ℕ
unfolding is_leap_year
seconds_in_year year = if is_leap_year year then 31622400 else 31536000

-- `SECONDS_PER_MONTH`, with the leap February at index 0.
abbrev pub seconds_per_month : List ℕ
seconds_per_month =
    2505600 ∷ 2678400 ∷ 2419200 ∷ 2678400 ∷ 2592000 ∷ 2678400 ∷ 2592000 ∷ 2678400 ∷ 2678400
    ∷ 2592000 ∷ 2678400 ∷ 2592000 ∷ 2678400 ∷ []

unfoldable pub seconds_in_month : ℕ → ℕ → ℕ
unfolding is_leap_year
seconds_in_month year month =
    if is_leap_year year && month == 2
    then get_or seconds_per_month 0 0
    else get_or seconds_per_month month 0

-- Where a loop stops: the year or month, and the seconds left in it.
pub record Found : Type 0 where
  pub index : ℕ
  pub left : ℕ

-- The loop over years; the fuel bounds the years that can pass.
unfoldable pub find_year : ℕ → ℕ → ℕ → Option Found
unfolding seconds_in_year
find_year zero year seconds = none
find_year (suc fuel) year seconds =
    let later = find_year fuel (year + 1) (seconds - seconds_in_year year) in
    if ltb seconds (seconds_in_year year)
    then some (record { index = year; left = seconds })
    else later

-- The loop over months. The table ends at December: a thirteenth round would read past it.
unfoldable pub find_month : ℕ → ℕ → ℕ → ℕ → Option Found
unfolding seconds_in_month
find_month zero year month seconds = none
find_month (suc fuel) year month seconds =
    let later = find_month fuel year (month + 1) (seconds - seconds_in_month year month) in
    if ltb seconds (seconds_in_month year month)
    then some (record { index = month; left = seconds })
    else later

-- The local variables of `timestamp` once both loops are over.
pub record Civil : Type 0 where
  pub year : ℕ
  pub month : ℕ
  pub day : ℕ
  pub hour : ℕ
  pub minute : ℕ
  pub second : ℕ
  pub millis : ℕ
  pub micros : ℕ

abbrev split_day : ℕ → ℕ → ℕ → ℕ → Civil
split_day year month seconds nanos = record {
  year = year;
  month = month;
  day = seconds / 86400 + 1;
  hour = seconds % 86400 / 3600;
  minute = seconds % 86400 % 3600 / 60;
  second = seconds % 86400 % 3600 % 60;
  millis = nanos / 1000000;
  micros = nanos % 1000000 / 1000;
}

-- A year has at least 31536000 seconds, so this fuel is never used up.
unfoldable pub civil_time : ℕ → ℕ → Option Civil
unfolding find_year find_month
civil_time seconds nanos = elim (find_year (seconds / 31536000 + 1) 1970 seconds) [
  | none ↦ none
  | some y ↦ elim (find_month 12 y.index 1 y.left) [
    | none ↦ none
    | some m ↦ some (split_day y.index m.index m.left nanos)
  ]
]

-- A field with the leading zero that `if (n < 10)` writes.
unfoldable pub two_digits : ℕ → List ℕ
two_digits n = (if ltb n 10 then b'0' ∷ [] else []) ++ i_to_str (pos n)

unfoldable pub three_digits : ℕ → List ℕ
three_digits n =
    (if ltb n 100 then b'0' ∷ [] else [])
    ++ ((if ltb n 10 then b'0' ∷ [] else []) ++ i_to_str (pos n))

unfoldable pub print_civil : Civil → List ℕ
print_civil c =
    i_to_str (pos c.year)
    ++ (b'-' ∷ two_digits c.month
        ++ (b'-' ∷ two_digits c.day
            ++ (b' ' ∷ two_digits c.hour
                ++ (b':' ∷ two_digits c.minute
                    ++ (b':' ∷ two_digits c.second
                        ++ (b'.' ∷ three_digits c.millis
                            ++ (three_digits c.micros ++ b'Z' ∷ [])))))))

-- `none` only if a loop runs out of fuel.
unfoldable pub timestamp : ℕ → ℕ → Option (List ℕ)
timestamp seconds nanos = elim (civil_time seconds nanos) [
  | none ↦ none
  | some c ↦ some (print_civil c)
]
