-- ===== src/Report/Filter.antt =====
-- internal/report/domain/filter.go: what the admin asked for and what the database needs. Times
-- that are days are dates; a pointer is an option. Ages go back from a year that is far above the
-- age, where Go's calendar does not wrap.
pub mod Ages
pub mod Pages
use go_finish_line_api.Prelude.{
  ℕ, suc, ◌+◌, ◌-◌, Bool, true, false, Option, none, some, ℤ, pos, negsuc, ◌+ℤ◌, ◌-ℤ◌, ◌*ℤ◌, ltb_ℤ,
  wrap_int64, leb, if◌then◌else◌,
}
use go_finish_line_api.Text.{Text, is_empty, trim_space, Platform}
use go_finish_line_api.Civil.{Date, civil, days_in_month, next_day, sub_days, sub_years}
use go_finish_line_api.Apperr.{
  AppError, app, report, ReportError, age_range_invalid, Result, ok, err, ◌>>=◌, ◌>>◌,
}
use go_finish_line_api.Participant.Values.{parse_gender, gender_text}

abbrev pub default_page_size : ℤ
default_page_size = pos 25

abbrev pub max_page_size : ℤ
max_page_size = pos 100

abbrev pub default_timeline_days : ℤ
default_timeline_days = pos 14

abbrev pub max_timeline_days : ℤ
max_timeline_days = pos 365

pub record ParticipantFilter : Type 0 where
  pub search : Text
  pub race_id : Option ℕ
  pub gender : Text
  pub age_min : Option ℤ
  pub age_max : Option ℤ
  pub page : ℤ
  pub page_size : ℤ

pub record ParticipantQuery : Type 0 where
  pub search : Text
  pub race_id : Option ℕ
  pub gender : Text
  pub birth_from : Option Date
  pub birth_to : Option Date
  pub limit : ℤ
  pub offset : ℤ

-- `f.Gender` after its `if`
unfoldable pub clean_gender : Platform → Text → Result Text
clean_gender pf g =
    if is_empty g then ok g else (parse_gender pf g >>= λ parsed. ok (gender_text parsed))

abbrev is_negative : Option ℤ → Bool
is_negative none = false
is_negative (some a) = ltb_ℤ a (pos 0)

abbrev is_inverted : Option ℤ → Option ℤ → Bool
is_inverted (some lo) (some hi) = ltb_ℤ hi lo
is_inverted (some lo) none = false
is_inverted none hi = false

unfoldable pub check_ages : Option ℤ → Option ℤ → Result (Unit {0})
check_ages lo hi =
    if is_negative lo
    then err (app (report age_range_invalid))
    else if is_negative hi
    then err (app (report age_range_invalid))
    else if is_inverted lo hi
    then err (app (report age_range_invalid))
    else ok tt

-- `if f.Page < 1 { f.Page = 1 }`
unfoldable pub clamp_page : ℤ → ℤ
clamp_page p = if ltb_ℤ p (pos 1) then pos 1 else p

-- The `switch` of `Normalize` and of `TimelineRange`
unfoldable pub clamp : (default most : ℤ) → ℤ → ℤ
clamp default most n = if ltb_ℤ n (pos 1) then default else if ltb_ℤ most n then most else n

unfoldable pub normalize : Platform → ParticipantFilter → Result ParticipantFilter
unfolding clean_gender check_ages clamp_page clamp
normalize pf f = do
  gender ← clean_gender pf f.gender
  check_ages f.age_min f.age_max
  ok (record f {
    search = trim_space f.search;
    gender = gender;
    page = clamp_page f.page;
    page_size = clamp default_page_size max_page_size f.page_size;
  })

-- `AddDate(-n, 0, 0)` for any `n`
unfoldable pub back_years : ℤ → Date → Date
unfolding sub_years
back_years (pos n) d = sub_years n d
back_years (negsuc n) d =
    let y = d.year + suc n in
    if leb d.day (days_in_month y d.month)
    then civil y d.month d.day
    else civil y (d.month + 1) (d.day - days_in_month y d.month)

-- The bounds that `Resolve` puts on the birth date
unfoldable pub latest_birth : Date → ℤ → Date
unfolding back_years
latest_birth today age_min = back_years age_min today

unfoldable pub earliest_birth : Date → ℤ → Date
unfolding back_years next_day ◌+ℤ◌
earliest_birth today age_max = next_day (back_years (wrap_int64 (age_max +ℤ pos 1)) today)

unfoldable pub page_offset : (page page_size : ℤ) → ℤ
unfolding ◌-ℤ◌ ◌*ℤ◌ wrap_int64
page_offset page page_size = wrap_int64 (wrap_int64 (page -ℤ pos 1) *ℤ page_size)

abbrev pub map_option : {A B : Type 0} → (A → B) → Option A → Option B
map_option f none = none
map_option f (some a) = some (f a)

unfoldable pub resolve : Date → ParticipantFilter → ParticipantQuery
unfolding latest_birth earliest_birth page_offset
resolve today f = record {
  search = f.search;
  race_id = f.race_id;
  gender = f.gender;
  birth_from = map_option (earliest_birth today) f.age_max;
  birth_to = map_option (latest_birth today) f.age_min;
  limit = f.page_size;
  offset = page_offset f.page f.page_size;
}

unfoldable pub timeline_days : ℤ → ℕ
unfolding clamp
timeline_days days = elim (clamp default_timeline_days max_timeline_days days) [
  | pos n ↦ n
  | negsuc n ↦ 0
]

-- `TimelineRange`: the first day and the last.
unfoldable pub timeline_range : ℤ → Date → Date × Date
unfolding timeline_days sub_days
timeline_range days today = (sub_days (timeline_days days - 1) today, today)
