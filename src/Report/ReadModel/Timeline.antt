-- ===== src/Report/ReadModel/Timeline.antt =====
-- The timeline has a point for every day of its range, and the counts that were found.
use go_finish_line_api.Prelude.{
  ℕ, zero, suc, ◌+◌, ◌-◌, ◌≤◌, ◌<◌, ◌≡◌, refl, List, [], ◌∷◌, map, arith,
}
use go_finish_line_api.Civil.{Date, IsDate, date_key, next_day}
use go_finish_line_api.Civil.Laws.{next_day-IsDate, date_key-next_day}
use go_finish_line_api.Report.ReadModel.{TimelinePoint, count_on, fill_from, fill_timeline}

-- The days from a day on, as many as are asked for.
unfoldable pub days_from : Date → ℕ → List Date
unfolding next_day
days_from day zero = []
days_from day (suc n) = day ∷ days_from (next_day day) n

abbrev pub point_on : List TimelinePoint → Date → TimelinePoint
point_on found day = record { date = day; count = count_on found day }

-- `last` is `n` days after `day`.
unfoldable pub day_after : ℕ → Date → Date
unfolding next_day
day_after zero day = day
day_after (suc n) day = day_after n (next_day day)

day_after-IsDate : (n : ℕ) (day : Date) → IsDate day → IsDate (day_after n day)
unfolding day_after
day_after-IsDate zero day v = v
day_after-IsDate (suc n) day v = day_after-IsDate n (next_day day) (next_day-IsDate day v)

day_after-late : (n : ℕ) (day : Date) → IsDate day → date_key day + n ≤ date_key (day_after n day)
unfolding day_after
day_after-late zero day v = omega arith
day_after-late (suc n) day v =
    omega (arith, day_after-late n (next_day day) (next_day-IsDate day v), date_key-next_day day v)

fill_past :
    (k : ℕ) (found : List TimelinePoint) (day to : Date)
    → date_key to < date_key day
    → fill_from k found day to ≡ []
unfolding fill_from
fill_past zero found day to h = refl
fill_past (suc k) found day to h = ground arith

fill_days :
    (n k : ℕ) (found : List TimelinePoint) (day : Date)
    → IsDate day
    → n < k
    → fill_from k found day (day_after n day) ≡ map (point_on found) (days_from day (suc n))
unfolding fill_from day_after days_from
fill_days n zero found day v h = absurd (omega arith)
fill_days zero (suc k) found day v h =
    ground (arith, fill_past k found (next_day day) day (date_key-next_day day v))
fill_days (suc n) (suc k) found day v h = ground (
  arith,
  fill_days n k found (next_day day) (next_day-IsDate day v),
  day_after-late (suc n) day v,
)

-- The loop ends, and gives each day from the first to the last once and in order, none left out,
-- with the count that was found for the day and 0 where none was.
pub fill_timeline-days_from :
    (n : ℕ) (found : List TimelinePoint) (from : Date)
    → IsDate from
    → fill_timeline found from (day_after n from) ≡ map (point_on found) (days_from from (suc n))
unfolding fill_timeline
fill_timeline-days_from n found from v =
    fill_days n (suc (date_key (day_after n from)) - date_key from) found from v
      (omega (arith, day_after-late n from v))
