-- ===== src/Tests/Reports.antt =====
-- The participants report, the timeline and the size chart.
use go_finish_line_api.Prelude.{
  ◌+◌, ◌-◌, ◌≤◌, ◌≡◌, ◌↔◌, refl, true, false, none, some, List, [], ◌∷◌, map, arith, pos, ◌≤ℤ◌,
}
use go_finish_line_api.Text.{codes, text_eq, to_upper, trim_space}
use go_finish_line_api.Civil.{Date, IsDate, civil, is_leap, days_in_month, date_key, midnight}
use go_finish_line_api.Apperr.{ok}
use go_finish_line_api.Participant.Values.{parse_gender}
use go_finish_line_api.Report.Filter.{
  ParticipantFilter, normalize, check_ages, clean_gender, clamp_page, clamp, resolve, latest_birth,
  timeline_range, timeline_days,
}
use go_finish_line_api.Report.Filter.Ages.{resolve-born_within, leap_day-age_min}
use go_finish_line_api.Report.Filter.Pages.{IsAge, InOrder, normalize-bounds}
use go_finish_line_api.Report.ReadModel.{
  TimelinePoint, ShirtSizeCount, age_at, count_on, fill_timeline, sort_shirt_sizes,
}
use go_finish_line_api.Report.ReadModel.Timeline.{day_after, days_from, point_on}
use go_finish_line_api.Report.ReadModel.Chart.{sort_shirt_sizes_lem}
use go_finish_line_api.Report.Repository.{born_within, timeline_sql}
use go_finish_line_api.Report.Service.Window.{timeline_complete}
use go_finish_line_api.Report.Service.Counts.{points, timeline_sql-counts}
use go_finish_line_api.Tests.Data.{platform, today, waiting_row, tables}
use go_finish_line_api.Store.{Db}
use go_finish_line_api.Participant.Values.{confirmed}

today-IsDate : IsDate today
unfolding days_in_month
today-IsDate = record { month_in = (omega arith, omega arith); day_in = (omega arith, omega arith) }

abbrev birth : Date
birth = civil 11990 5 20

birth-IsDate : IsDate birth
unfolding days_in_month
birth-IsDate = record { month_in = (omega arith, omega arith); day_in = (omega arith, omega arith) }

abbrev leap_day : Date
leap_day = civil 12024 2 29

leap_day-IsDate : IsDate leap_day
unfolding days_in_month is_leap
leap_day-IsDate = record {
  month_in = (omega arith, omega arith);
  day_in = (omega arith, omega arith);
}

abbrev asked : ParticipantFilter
asked = record {
  search = codes " Rojas ";
  race_id = none;
  gender = codes "f";
  age_min = some (pos 18);
  age_max = some (pos 40);
  page = pos 0;
  page_size = pos 5000;
}

abbrev answered : ParticipantFilter
answered = record {
  search = codes "Rojas";
  race_id = none;
  gender = codes "F";
  age_min = some (pos 18);
  age_max = some (pos 40);
  page = pos 1;
  page_size = pos 100;
}

is_past : date_key birth ≤ date_key today
unfolding date_key
is_past = omega arith

resolve-born_within_example :
    (born_within (resolve today answered) birth ≡ true)
    ↔ ((18 ≤ age_at birth today) × (age_at birth today ≤ 40))
resolve-born_within_example =
    resolve-born_within answered today birth today-IsDate birth-IsDate is_past (λ m. omega arith)
      (omega arith, omega arith) (omega arith, omega arith)

common_year : is_leap (12024 - 1) ≡ false
unfolding is_leap
common_year = refl

leap_day-age_min_example :
    (date_key (civil (12024 - 1) 3 1) ≤ date_key (latest_birth leap_day (pos 1)))
    × (age_at (civil (12024 - 1) 3 1) leap_day + 1 ≡ 1)
leap_day-age_min_example =
    leap_day-age_min 1 leap_day leap_day-IsDate refl refl (omega arith) common_year

cleaned : normalize platform asked ≡ ok answered
unfolding normalize clean_gender check_ages clamp_page clamp parse_gender trim_space to_upper
    text_eq
cleaned = refl

normalize-bounds_example :
    (pos 1 ≤ℤ pos 1)
    × (pos 1 ≤ℤ pos 100)
    × (pos 100 ≤ℤ pos 100)
    × (IsAge (some (pos 18)) × IsAge (some (pos 40)) × InOrder (some (pos 18)) (some (pos 40)))
    × (answered.age_min ≡ asked.age_min)
    × (answered.age_max ≡ asked.age_max)
    × (answered.race_id ≡ asked.race_id)
normalize-bounds_example = normalize-bounds platform asked answered cleaned

abbrev found : List TimelinePoint
found = record { date = today; count = 4 } ∷ []

timeline_complete_example :
    (fill_timeline found (timeline_range (pos 7) today).0 (timeline_range (pos 7) today).1
      ≡ map (point_on found) (days_from (timeline_range (pos 7) today).0 (timeline_days (pos 7))))
    × (day_after (timeline_days (pos 7) - 1) (timeline_range (pos 7) today).0 ≡ today)
    × (1 ≤ timeline_days (pos 7))
    × (timeline_days (pos 7) ≤ 365)
timeline_complete_example = timeline_complete (pos 7) found today today-IsDate (omega arith)

-- Two confirmed registrations, of which one was created on the day, and one that waits.
abbrev runners : Db
runners = record tables {
  registrations =
      record waiting_row { id = 12; status = confirmed; dorsal = some (pos 1) }
      ∷ record waiting_row {
        id = 13;
        status = confirmed;
        dorsal = some (pos 2);
        created_at = midnight (civil 12026 7 29);
      }
      ∷ waiting_row
      ∷ [];
}

timeline_sql-counts_example :
    count_on (points (timeline_sql (some 7) today today runners).0) today ≡ 1
unfolding date_key
timeline_sql-counts_example =
    timeline_sql-counts (some 7) today today today runners today-IsDate today-IsDate
      (omega arith, (omega arith, (omega arith, tt)))

abbrev counts : List ShirtSizeCount
counts =
    record { size = codes "XL"; count = 2 }
    ∷ record { size = []; count = 1 }
    ∷ record { size = codes "S"; count = 5 }
    ∷ []

sort_shirt_sizes_lem_example :
    sort_shirt_sizes counts
    ≡ record { size = codes "S"; count = 5 }
      ∷ record { size = codes "XL"; count = 2 }
      ∷ record { size = []; count = 1 }
      ∷ []
unfolding text_eq
sort_shirt_sizes_lem_example = sort_shirt_sizes_lem counts
