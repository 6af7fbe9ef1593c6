-- ===== src/Report/ReadModel.antt =====
-- internal/report/domain/report.go: the read models, the size chart's order, ages, and the
-- timeline without gaps. A point's date is a day, as `dayKey` and the query truncate it.
pub mod Chart
pub mod Timeline
use go_finish_line_api.Prelude.{
  ℕ, zero, suc, ◌+◌, ◌-◌, Bool, true, false, ◌&&◌, ◌||◌, Option, none, some, List, [], ◌∷◌, ltb,
  leb, ◌==◌, ℤ, pos, ◌+ℤ◌, ◌-ℤ◌, ltb_ℤ, if◌then◌else◌,
}
use go_finish_line_api.Text.{Text, text_eq}
use go_finish_line_api.Civil.{Date, date_key, next_day}
use go_finish_line_api.Sort.{sort_by}
use go_finish_line_api.Participant.Values.{ShirtSize, xs, s, m, l, xl, xxl, shirt_size_text}

pub record TimelinePoint : Type 0 where
  pub date : Date
  pub count : ℕ

pub record ReferralCount : Type 0 where
  pub source : Text
  pub count : ℕ

pub record ShirtSizeCount : Type 0 where
  pub size : Text
  pub count : ℕ

pub record ParticipantRow : Type 0 where
  pub participant_id : ℕ
  pub first_names : Text
  pub last_names : Text
  pub email : Text
  pub phone : Text
  pub document_id : Text
  pub gender : Text
  pub birth_date : Date
  pub age : ℕ
  pub races_count : ℕ

pub record ParticipantPage : Type 0 where
  pub items : List ParticipantRow
  pub total : ℕ
  pub page : ℤ
  pub page_size : ℤ

-- `shirtSizeOrder`, as the chart that it numbers.
abbrev pub chart : List ShirtSize
chart = xs ∷ s ∷ m ∷ l ∷ xl ∷ xxl ∷ []

-- The place on a chart, or its length.
unfoldable pub place : List ShirtSize → Text → ℕ
unfolding text_eq
place [] size = 0
place (c ∷ cs) size =
    let rest = place cs size in if text_eq size (shirt_size_text c) then 0 else suc rest

unfoldable pub shirt_size_rank : Text → ℕ
unfolding place
shirt_size_rank = place chart

abbrev pub smaller : ShirtSizeCount → ShirtSizeCount → Bool
smaller a b = ltb (shirt_size_rank a.size) (shirt_size_rank b.size)

unfoldable pub sort_shirt_sizes : List ShirtSizeCount → List ShirtSizeCount
unfolding sort_by shirt_size_rank
sort_shirt_sizes = sort_by smaller

-- Go's age may go below 0 before the last test; the difference of two years is a machine integer
-- that does not wrap.
unfoldable pub age_at : (birth_date at : Date) → ℕ
age_at birth_date at =
    let age = at.year - birth_date.year in
    if ltb at.month birth_date.month || at.month == birth_date.month && ltb at.day birth_date.day
    then age - 1
    else age

-- The map `counts` at one day, by its writes: the last one to the day is what it holds.
unfoldable pub last_write : Date → List TimelinePoint → ℕ → ℕ
unfolding date_key
last_write day [] n = n
last_write day (p ∷ ps) n =
    let hit = last_write day ps p.count in
    let miss = last_write day ps n in if date_key p.date == date_key day then hit else miss

-- `counts[dayKey(day)]`, which is 0 where there is none.
unfoldable pub count_on : List TimelinePoint → Date → ℕ
unfolding last_write
count_on found day = last_write day found 0

-- The loop of `FillTimeline` from `day`, with `n` rounds left.
unfoldable pub fill_from : ℕ → List TimelinePoint → (day to : Date) → List TimelinePoint
unfolding count_on date_key next_day
fill_from zero found day to = []
fill_from (suc n) found day to =
    let rest = fill_from n found (next_day day) to in
    if ltb (date_key to) (date_key day)
    then []
    else record { date = day; count = count_on found day } ∷ rest

-- `FillTimeline`: each round moves the day on, so there are no more than the places between.
unfoldable pub fill_timeline : List TimelinePoint → (from to : Date) → List TimelinePoint
unfolding fill_from
fill_timeline found from to = fill_from (suc (date_key to) - date_key from) found from to
