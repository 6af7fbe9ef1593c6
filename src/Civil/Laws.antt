-- ===== src/Civil/Laws.antt =====
-- The calendar: the order of dates, and steps by a day and by years.
use go_finish_line_api.Prelude.{ℕ, ◌+◌, ◌-◌, ◌≤◌, ◌<◌, ◌≡◌, refl, arith}
use go_finish_line_api.Civil.{Date, days_in_month, IsDate, date_key, next_day, prev_day}

pub days_in_month_bounds : (y m : ℕ) → (28 ≤ days_in_month y m) × (days_in_month y m ≤ 31)
unfolding days_in_month
days_in_month_bounds y m = ground arith

pub days_in_month_long : (y m : ℕ) → (m ≡ 12) → days_in_month y m ≡ 31
unfolding days_in_month
days_in_month_long y m h = ground arith

-- Dates with one place are one date.
pub date_key_inj : (a b : Date) → IsDate a → IsDate b → date_key a ≡ date_key b → a ≡ b
unfolding date_key
date_key_inj a b va vb h =
    ground (arith, days_in_month_bounds a.year a.month, days_in_month_bounds b.year b.month)

pub next_day-IsDate : (d : Date) → IsDate d → IsDate (next_day d)
unfolding next_day
next_day-IsDate d v =
    ground (arith, days_in_month_bounds d.year (d.month + 1), days_in_month_bounds (d.year + 1) 1)

pub prev_day-IsDate : (d : Date) → IsDate d → IsDate (prev_day d)
unfolding prev_day
prev_day-IsDate d v =
    ground
      (arith, days_in_month_bounds d.year (d.month - 1), days_in_month_long (d.year - 1) 12 refl)

-- The next day is later.
pub date_key-next_day : (d : Date) → IsDate d → date_key d < date_key (next_day d)
unfolding next_day date_key
date_key-next_day d v = ground (arith, days_in_month_bounds d.year d.month)

-- A day forward undoes a day back, after the first year.
pub next_day-prev_day : (d : Date) → IsDate d → 1 ≤ d.year → next_day (prev_day d) ≡ d
unfolding next_day prev_day
next_day-prev_day d v h =
    ground
      (arith, days_in_month_bounds d.year (d.month - 1), days_in_month_long (d.year - 1) 12 refl)

-- No date lies between a date and the next.
pub next_day_least :
    (d e : Date)
    → IsDate d
    → IsDate e
    → date_key d < date_key e
    → date_key (next_day d) ≤ date_key e
unfolding next_day date_key
next_day_least d e vd ve h =
    ground (arith, days_in_month_bounds d.year d.month, days_in_month_bounds e.year e.month)
