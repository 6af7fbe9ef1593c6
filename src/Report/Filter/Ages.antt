-- ===== src/Report/Filter/Ages.antt =====
-- The age bounds of the participants report against the ages that it shows.
use go_finish_line_api.Prelude.{
  ℕ, suc, ◌+◌, ◌-◌, ◌^◌, ◌≤◌, ◌<◌, ◌≡◌, refl, ◌↔◌, true, false, ◌&&◌, Option, none, some, ℤ, pos,
  negsuc, ◌+ℤ◌, wrap_int64, arith,
}
use go_finish_line_api.Civil.{
  Date, IsDate, civil, is_leap, days_in_month, date_key, next_day, sub_years,
}
use go_finish_line_api.Civil.Laws.{days_in_month_bounds}
use go_finish_line_api.Report.Filter.{
  map_option, ParticipantFilter, back_years, latest_birth, earliest_birth, resolve,
}
use go_finish_line_api.Report.ReadModel.{age_at}
use go_finish_line_api.Report.Repository.{born_within, at_least, at_most}

-- A day of the month that is not 29 February is in every year.
days_stay :
    (d : Date) (y : ℕ) → IsDate d → (d.month ≡ 2 → d.day ≤ 28) → d.day ≤ days_in_month y d.month
unfolding days_in_month
days_stay d y v h = ground arith

back_years_pos :
    (n : ℕ) (d : Date)
    → IsDate d
    → (d.month ≡ 2 → d.day ≤ 28)
    → back_years (pos n) d ≡ civil (d.year - n) d.month d.day
unfolding back_years sub_years
back_years_pos n d v h = ground (arith, days_stay d (d.year - n) v h)

wrap_small : (n : ℕ) → n < 2 ^ 63 → wrap_int64 (pos n) ≡ pos n
unfolding wrap_int64
wrap_small n h = ground arith

latest_iff :
    (n : ℕ) (today birth : Date)
    → IsDate today
    → IsDate birth
    → date_key birth ≤ date_key today
    → (today.month ≡ 2 → today.day ≤ 28)
    → n ≤ today.year
    → (date_key birth ≤ date_key (latest_birth today (pos n))) ↔ (n ≤ age_at birth today)
unfolding latest_birth date_key age_at
latest_iff n today birth v vb past plain far =
    let b1 = days_in_month_bounds today.year today.month in
    let b2 = days_in_month_bounds birth.year birth.month in
    ground (arith, back_years_pos n today v plain)

earliest_iff :
    (n : ℕ) (today birth : Date)
    → IsDate today
    → IsDate birth
    → (today.month ≡ 2 → today.day ≤ 28)
    → n < today.year
    → suc n < 2 ^ 63
    → (date_key (earliest_birth today (pos n)) ≤ date_key birth) ↔ (age_at birth today ≤ n)
unfolding earliest_birth date_key age_at next_day ◌+ℤ◌
earliest_iff n today birth v vb plain far small =
    let b1 = days_in_month_bounds today.year today.month in
    let b2 = days_in_month_bounds birth.year birth.month in
    let b3 = days_in_month_bounds (today.year - suc n) today.month in
    ground (
      arith,
      back_years_pos (suc n) today v plain,
      wrap_small (suc n) small,
      days_stay today (today.year - suc n) v plain,
    )

-- The bounds as the admin means them: completed years, none where there is no bound.
abbrev pub OldEnough : Option ℤ → ℕ → Type 0
OldEnough none age = Unit {0}
OldEnough (some (pos n)) age = n ≤ age
OldEnough (some (negsuc n)) age = Unit {0}

abbrev pub YoungEnough : Option ℤ → ℕ → Type 0
YoungEnough none age = Unit {0}
YoungEnough (some (pos n)) age = age ≤ n
YoungEnough (some (negsuc n)) age = ⊥

-- An age that is not below 0 and with which the calendar and Go's `int` do not wrap.
abbrev pub InCalendar : Date → Option ℤ → Type 0
InCalendar today none = Unit {0}
InCalendar today (some (pos n)) = (n < today.year) × (suc n < 2 ^ 63)
InCalendar today (some (negsuc n)) = ⊥

-- On a day other than 29 February, the rows that the query's bounds on the birth date let through
-- are those of the people whose age, as the report shows it, is within the bounds that were asked
-- for. The birth date is not in the future, and a bound is not negative and so small that neither
-- the calendar nor Go's int wraps.
pub resolve-born_within :
    (f : ParticipantFilter) (today birth : Date)
    → IsDate today
    → IsDate birth
    → date_key birth ≤ date_key today
    → (today.month ≡ 2 → today.day ≤ 28)
    → InCalendar today f.age_min
    → InCalendar today f.age_max
    → (born_within (resolve today f) birth ≡ true)
      ↔ (OldEnough f.age_min (age_at birth today) × YoungEnough f.age_max (age_at birth today))
unfolding resolve born_within
resolve-born_within f today birth v vb past plain lo hi = bounds f.age_min f.age_max lo hi
  where
    low :
        (a : Option ℤ)
        → InCalendar today a
        → (at_most (map_option (latest_birth today) a) birth ≡ true)
          ↔ OldEnough a (age_at birth today)
    low none h = (λ _. tt, λ _. refl)
    low (some (pos n)) h = ground (arith, latest_iff n today birth v vb past plain)
    low (some (negsuc n)) h = absurd h

    high :
        (a : Option ℤ)
        → InCalendar today a
        → (at_least (map_option (earliest_birth today) a) birth ≡ true)
          ↔ YoungEnough a (age_at birth today)
    high none h = (λ _. tt, λ _. refl)
    high (some (pos n)) h = ground (arith, earliest_iff n today birth v vb plain h.0 h.1)
    high (some (negsuc n)) h = absurd h

    bounds :
        (a b : Option ℤ)
        → InCalendar today a
        → InCalendar today b
        → ((at_least (map_option (earliest_birth today) b) birth
              && at_most (map_option (latest_birth today) a) birth)
            ≡ true)
          ↔ (OldEnough a (age_at birth today) × YoungEnough b (age_at birth today))
    bounds a b h k = let l = low a h in let u = high b k in ground (arith, l, u)

-- On 29 February the bound is a day late for the years that have none: a person who was born on 1
-- March, `n` years before, is let through as being `n` years old at least, and is one year younger.
pub leap_day-age_min :
    (n : ℕ) (today : Date)
    → IsDate today
    → today.month ≡ 2
    → today.day ≡ 29
    → n ≤ today.year
    → is_leap (today.year - n) ≡ false
    → (date_key (civil (today.year - n) 3 1) ≤ date_key (latest_birth today (pos n)))
      × (age_at (civil (today.year - n) 3 1) today + 1 ≡ n)
unfolding latest_birth back_years sub_years days_in_month date_key age_at
leap_day-age_min n today v february last far common = ground arith
