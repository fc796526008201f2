-- ===== src/Calendar.antt =====
-- What the server uses of Python's `datetime`: the proleptic Gregorian calendar, and the local time of
-- Europe/London. A naive UTC datetime is a number of seconds, and a local one a date with a number of
-- seconds of the day. The rules of the time zone are data that the server reads (`zoneinfo`), and so a
-- parameter.
pub mod Order
use debt_collector.Common.{
  ℕ, zero, suc, ◌+◌, ◌-◌, ◌*◌, ◌/◌, ◌%◌, ◌≤◌, ◌<◌, ◌≡◌, Bool, true, false, not, ◌&&◌, ◌||◌, ◌==◌,
  ltb, if◌then◌else◌, ◌⊎◌,
}

pub record Date : Type 0 where
  pub year : ℕ
  pub month : ℕ
  pub day : ℕ

unfoldable pub is_leap : ℕ → Bool
is_leap year = year % 4 == 0 && (not (year % 100 == 0) || year % 400 == 0)

unfoldable pub days_in_month : ℕ → ℕ → ℕ
unfolding is_leap
days_in_month year month =
    if month == 2
    then (if is_leap year then 29 else 28)
    else if (month == 4) || (month == 6) || (month == 9) || (month == 11)
    then 30
    else 31

-- The days of the months 1 to n.
unfoldable pub days_of_months : ℕ → ℕ → ℕ
days_of_months year zero = 0
days_of_months year (suc n) = days_of_months year n + days_in_month year (suc n)

-- The days of the years before a year.
unfoldable pub days_before_year : ℕ → ℕ
days_before_year year = let y = year - 1 in y * 365 + y / 4 - y / 100 + y / 400

-- `date.toordinal()`
unfoldable pub to_ordinal : Date → ℕ
to_ordinal d = days_before_year d.year + days_of_months d.year (d.month - 1) + d.day

-- `date.weekday()`: 0 is a Monday.
unfoldable pub weekday : Date → ℕ
unfolding to_ordinal
weekday d = (to_ordinal d + 6) % 7

unfoldable pub next_day : Date → Date
next_day d =
    if ltb d.day (days_in_month d.year d.month)
    then record d { day = d.day + 1 }
    else if d.month == 12
    then record { year = d.year + 1; month = 1; day = 1 }
    else record { year = d.year; month = d.month + 1; day = 1 }

-- `date + timedelta(days=n)`
unfoldable pub add_days : ℕ → Date → Date
unfolding next_day
add_days zero d = d
add_days (suc n) d = add_days n (next_day d)

-- A date of the calendar.
pub record IsDate (d : Date) : Type 0 where
  pub year_in : 1 ≤ d.year
  pub month_in : (1 ≤ d.month) × (d.month ≤ 12)
  pub day_in : (1 ≤ d.day) × (d.day ≤ days_in_month d.year d.month)

-- `a <= b` on dates compares the year, the month and the day in turn.
unfoldable pub date_leb : Date → Date → Bool
date_leb a b =
    ltb a.year b.year
    || (a.year == b.year && (ltb a.month b.month || (a.month == b.month && not (ltb b.day a.day))))

pub record LocalTime : Type 0 where
  pub date : Date
  pub time : ℕ

-- `a <= b` on two local times of one zone.
abbrev pub local_leb : LocalTime → LocalTime → Bool
local_leb a b =
    not (date_leb b.date a.date)
    || (date_leb a.date b.date && date_leb b.date a.date && not (ltb b.time a.time))

-- `dt.astimezone(LONDON)`, and `dt.astimezone(UTC)` of a local time.
pub record London : Type 0 where
  pub local : ℕ → LocalTime
  pub to_utc : LocalTime → ℕ

-- What the zone's rules satisfy: clocks are set back by one hour at two in the morning, so the date
-- never goes back.
pub record IsCalendar (london : London) : Type 0 where
  pub is_date : (now : ℕ) → IsDate (london.local now).date
  pub later : (a b : ℕ) → a ≤ b → date_leb (london.local a).date (london.local b).date ≡ true
