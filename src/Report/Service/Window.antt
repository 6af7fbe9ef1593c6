-- ===== src/Report/Service/Window.antt =====
-- The timeline that the panel gets: its days and its counts.
use go_finish_line_api.Prelude.{
  ℕ, zero, suc, ◌+◌, ◌-◌, ◌≤◌, ◌≡◌, refl, subst, ap, ◌∙◌, Bool, List, [], ◌∷◌, map, ltb, arith, ℤ,
}
use go_finish_line_api.Civil.{Date, IsDate, date_key, next_day, prev_day, sub_days}
use go_finish_line_api.Civil.Laws.{next_day-prev_day, prev_day-IsDate}
use go_finish_line_api.Sort.{insert_by, sort_by}
use go_finish_line_api.Report.Filter.{timeline_range, timeline_days, clamp}
use go_finish_line_api.Report.ReadModel.{TimelinePoint, last_write, fill_timeline}
use go_finish_line_api.Report.ReadModel.Timeline.{
  days_from, point_on, day_after, fill_timeline-days_from,
}

day_after-next : (n : ℕ) (day : Date) → day_after n (next_day day) ≡ next_day (day_after n day)
unfolding day_after
day_after-next zero day = refl
day_after-next (suc n) day = day_after-next n (next_day day)

prev_year : (d : Date) → d.year ≤ (prev_day d).year + 1
unfolding prev_day
prev_year d = ground arith

-- As many days forward undo the days back.
day_after-sub_days : (n : ℕ) (d : Date) → IsDate d → n ≤ d.year → day_after n (sub_days n d) ≡ d
unfolding day_after sub_days
day_after-sub_days zero d v h = refl
day_after-sub_days (suc n) d v h =
    day_after-next n (sub_days n (prev_day d))
    ∙ ap next_day
        (day_after-sub_days n (prev_day d) (prev_day-IsDate d v) (omega (arith, prev_year d)))
    ∙ next_day-prev_day d v (omega arith)

sub_days-IsDate : (n : ℕ) (d : Date) → IsDate d → IsDate (sub_days n d)
unfolding sub_days
sub_days-IsDate zero d v = v
sub_days-IsDate (suc n) d v = sub_days-IsDate n (prev_day d) (prev_day-IsDate d v)

timeline_days-bounds : (days : ℤ) → (1 ≤ timeline_days days) × (timeline_days days ≤ 365)
unfolding timeline_days clamp
timeline_days-bounds days = ground arith

-- For any number of days that is asked for, the timeline has from 1 to 365 points, one for each day
-- and in the order of the days; it ends today, and each point has the count that was found for its
-- day, or 0. Today is a date at least 365 years into the model's count of years.
pub timeline_complete :
    (days : ℤ) (found : List TimelinePoint) (today : Date)
    → IsDate today
    → 365 ≤ today.year
    → (fill_timeline found (timeline_range days today).0 (timeline_range days today).1
        ≡ map (point_on found) (days_from (timeline_range days today).0 (timeline_days days)))
      × (day_after (timeline_days days - 1) (timeline_range days today).0 ≡ today)
      × (1 ≤ timeline_days days)
      × (timeline_days days ≤ 365)
unfolding timeline_range
timeline_complete days found today v h =
    let (low, high) = timeline_days-bounds days in
    let n = timeline_days days - 1 in
    let whole : suc n ≡ timeline_days days = omega arith in
    let ends = day_after-sub_days n today v (omega arith) in
    let filled = fill_timeline-days_from n found (sub_days n today) (sub_days-IsDate n today v) in
    (
      subst
          (λ last.
            fill_timeline found (sub_days n today) last
            ≡ map (point_on found) (days_from (sub_days n today) (timeline_days days)))
          ends (filled ∙ ap (λ k. map (point_on found) (days_from (sub_days n today) k)) whole),
      ends,
      low,
      high,
    )

abbrev pub point_of : Date × ℕ → TimelinePoint
point_of g = record { date = g.0; count = g.1 }

abbrev pub earlier : TimelinePoint → TimelinePoint → Bool
earlier a b = ltb (date_key a.date) (date_key b.date)

last_write-insert :
    (day : Date) (p : TimelinePoint) (ps : List TimelinePoint) (n : ℕ)
    → last_write day (insert_by earlier p ps) n ≡ last_write day (p ∷ ps) n
unfolding last_write insert_by
last_write-insert day p [] n = refl
last_write-insert day p (q ∷ ps) n =
    ground (arith, last_write-insert day p ps n, last_write-insert day p ps q.count)

pub last_write-sort :
    (day : Date) (ps : List TimelinePoint) (n : ℕ)
    → last_write day (sort_by earlier ps) n ≡ last_write day ps n
unfolding last_write sort_by
last_write-sort day [] n = refl
last_write-sort day (p ∷ ps) n =
    last_write-insert day p (sort_by earlier ps) n
    ∙ ground (arith, last_write-sort day ps n, last_write-sort day ps p.count)
