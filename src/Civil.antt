-- ===== src/Civil.antt =====
-- What the program uses of Go's package time: instants in UTC by calendar date and time of day,
-- their order, AddDate, Add and the truncation to a day.
-- `year` counts from a year that is a multiple of 400 and lies far before year 0, as Go's own
-- absolute years do, so leap years fall alike and subtraction does not reach below it.
-- Every zone is UTC: the process runs in UTC, and birth dates are parsed as UTC.
pub mod Laws
pub mod Layout
use go_finish_line_api.Prelude.{
  ℕ, zero, suc, ◌+◌, ◌-◌, ◌*◌, ◌/◌, ◌%◌, ◌≤◌, ◌<◌, Bool, true, false, not, ◌&&◌, ◌||◌, ltb, leb,
  ◌==◌, if◌then◌else◌,
}

pub record Date : Type 0 where
  pub year : ℕ
  pub month : ℕ
  pub day : ℕ

-- `nanos` counts from midnight.
pub record Time : Type 0 where
  pub date : Date
  pub nanos : ℕ

abbrev pub civil : ℕ → ℕ → ℕ → Date
civil y m d = record { year = y; month = m; day = d }

abbrev pub midnight : Date → Time
midnight d = record { date = d; nanos = 0 }

abbrev pub day_nanos : ℕ
day_nanos = 86400000000000

unfoldable pub is_leap : ℕ → Bool
is_leap y = y % 4 == 0 && (not (y % 100 == 0) || y % 400 == 0)

abbrev is_short : ℕ → Bool
is_short m = m == 4 || m == 6 || m == 9 || m == 11

unfoldable pub days_in_month : ℕ → ℕ → ℕ
unfolding is_leap
days_in_month y m =
    if is_short m then 30 else if not (m == 2) then 31 else if is_leap y then 29 else 28

pub record IsDate (d : Date) : Type 0 where
  pub month_in : (1 ≤ d.month) × (d.month ≤ 12)
  pub day_in : (1 ≤ d.day) × (d.day ≤ days_in_month d.year d.month)

pub record IsTime (t : Time) : Type 0 where
  pub is_date : IsDate t.date
  pub within : t.nanos < day_nanos

-- Places in the calendar, 31 to each month: dates compare by it as by year, month and day.
unfoldable pub date_key : Date → ℕ
date_key d = (d.year * 12 + (d.month - 1)) * 31 + (d.day - 1)

unfoldable pub time_key : Time → ℕ
unfolding date_key
time_key t = date_key t.date * day_nanos + t.nanos

-- `t.After(u)` and `t.Before(u)`
unfoldable pub after : Time → Time → Bool
unfolding time_key
after t u = ltb (time_key u) (time_key t)

unfoldable pub before : Time → Time → Bool
unfolding time_key
before t u = ltb (time_key t) (time_key u)

-- `AddDate(0, 0, 1)`
unfoldable pub next_day : Date → Date
next_day d =
    if ltb d.day (days_in_month d.year d.month)
    then record d { day = d.day + 1 }
    else if ltb d.month 12
    then civil d.year (d.month + 1) 1
    else civil (d.year + 1) 1 1

unfoldable pub prev_day : Date → Date
prev_day d =
    if ltb 1 d.day
    then record d { day = d.day - 1 }
    else if ltb 1 d.month
    then civil d.year (d.month - 1) (days_in_month d.year (d.month - 1))
    else civil (d.year - 1) 12 31

-- `AddDate(0, 0, n)` and `AddDate(0, 0, -n)`
unfoldable pub add_days : ℕ → Date → Date
unfolding next_day
add_days zero d = d
add_days (suc n) d = add_days n (next_day d)

unfoldable pub sub_days : ℕ → Date → Date
unfolding prev_day
sub_days zero d = d
sub_days (suc n) d = sub_days n (prev_day d)

-- `AddDate(-n, 0, 0)`: the day runs over into the next month where the month is too short, which
-- is 29 February in a year that has none.
unfoldable pub sub_years : ℕ → Date → Date
sub_years n d =
    let y = d.year - n in
    if leb d.day (days_in_month y d.month)
    then civil y d.month d.day
    else civil y (d.month + 1) (d.day - days_in_month y d.month)

abbrev pub on_date : (Date → Date) → Time → Time
on_date f t = record t { date = f t.date }

-- `t.Add(d)` for a duration that is not negative
unfoldable pub add : Time → ℕ → Time
unfolding add_days
add t d = record {
  date = add_days ((t.nanos + d) / day_nanos) t.date;
  nanos = (t.nanos + d) % day_nanos;
}

-- internal/report/domain `truncateDay`
unfoldable pub truncate_day : Time → Time
truncate_day t = midnight t.date
