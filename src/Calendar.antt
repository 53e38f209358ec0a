-- ===== src/Calendar.antt =====
-- UTC date-times as the server uses them: src/claudestruct/budget.py (`month_bounds`) and the calendar
-- month of src/claudestruct/server/billing.py. Every date-time is read as UTC.
pub mod Months
use claude_struct.Prelude.{
  ℕ, ◌+◌, ◌-◌, ◌*◌, ◌/◌, ◌%◌, ◌≤◌, ◌<◌, Bool, true, not, ◌&&◌, ◌||◌, ltb, leb, ◌==◌, if◌then◌else◌,
}

pub record DateTime : Type 0 where
  pub year : ℕ
  pub month : ℕ
  pub day : ℕ
  pub hour : ℕ
  pub minute : ℕ
  pub second : ℕ
  pub microsecond : ℕ

unfoldable pub is_leap : ℕ → Bool
is_leap y = (y % 4 == 0) && (not (y % 100 == 0) || (y % 400 == 0))

unfoldable pub days_before_year : ℕ → ℕ
days_before_year y = (y - 1) * 365 + (y - 1) / 4 - (y - 1) / 100 + (y - 1) / 400

-- The days of a common year before a month; December's also stands for what is no month.
unfoldable pub days_before_common : ℕ → ℕ
days_before_common m =
    if m == 1
    then 0
    else if m == 2
    then 31
    else if m == 3
    then 59
    else if m == 4
    then 90
    else if m == 5
    then 120
    else if m == 6
    then 151
    else if m == 7
    then 181
    else if m == 8
    then 212
    else if m == 9
    then 243
    else if m == 10
    then 273
    else if m == 11
    then 304
    else 334

unfoldable pub days_before_month : ℕ → ℕ → ℕ
unfolding days_before_common is_leap
days_before_month y m = days_before_common m + (if ltb 2 m && is_leap y then 1 else 0)

unfoldable pub days_in_month : ℕ → ℕ → ℕ
unfolding is_leap
days_in_month y m =
    if m == 2
    then (if is_leap y then 29 else 28)
    else if (m == 4) || ((m == 6) || ((m == 9) || (m == 11)))
    then 30
    else 31

-- The day number, as `datetime.toordinal` counts it: 1 January of year 1 is day 1.
unfoldable pub ordinal : DateTime → ℕ
unfolding days_before_year days_before_month
ordinal t = days_before_year t.year + days_before_month t.year t.month + t.day

-- Microseconds on the time line; date-times are compared and subtracted by it.
unfoldable pub instant : DateTime → ℕ
unfolding ordinal
instant t = (((ordinal t * 24 + t.hour) * 60 + t.minute) * 60 + t.second) * 1000000 + t.microsecond

-- A date-time that Python accepts, before the last year of its range.
pub record IsDate (t : DateTime) : Type 0 where
  pub year_low : 1 ≤ t.year
  pub month_low : 1 ≤ t.month
  pub month_high : t.month ≤ 12
  pub day_low : 1 ≤ t.day
  pub day_high : t.day ≤ days_in_month t.year t.month
  pub hour_high : t.hour < 24
  pub minute_high : t.minute < 60
  pub second_high : t.second < 60
  pub microsecond_high : t.microsecond < 1000000

-- `t < u` and `t <= u` on date-times.
unfoldable pub before : DateTime → DateTime → Bool
before t u = ltb (instant t) (instant u)

unfoldable pub not_after : DateTime → DateTime → Bool
not_after t u = leb (instant t) (instant u)

-- `t >= now - delta`, the delta in microseconds.
unfoldable pub is_since : DateTime → ℕ → DateTime → Bool
is_since now delta t = leb (instant now) (instant t + delta)

-- `start <= t < end`.
unfoldable pub in_period : DateTime × DateTime → DateTime → Bool
unfolding before not_after
in_period (start, end) t = not_after start t && before t end

-- `n.replace(day=1, hour=0, minute=0, second=0, microsecond=0)`.
unfoldable pub month_start : DateTime → DateTime
month_start n = record {
  year = n.year;
  month = n.month;
  day = 1;
  hour = 0;
  minute = 0;
  second = 0;
  microsecond = 0;
}

-- The calendar month of a moment, end excluded.
unfoldable pub month_bounds : DateTime → DateTime × DateTime
unfolding month_start
month_bounds n =
    let start = month_start n in
    if n.month == 12
    then (start, record start { year = n.year + 1; month = 1 })
    else (start, record start { month = n.month + 1 })
