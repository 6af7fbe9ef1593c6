-- ===== src/Report/Service/Counts.antt =====
-- The counts on the timeline against the rows of the tables.
use go_finish_line_api.Prelude.{
  ◌<◌, ◌+◌, ◌*◌, ◌⊎◌, true, not, ltb, All, ◌&&◌, leb, none, some, ℕ, ◌≡◌, refl, ◌∙◌, Bool, false,
  Option, List, [], ◌∷◌, map, select, any, length, ◌==◌, Bool-cases, inl, inr, arith, if◌then◌else◌,
}
use go_finish_line_api.Civil.{Date, Time, IsDate, date_key, day_nanos, midnight, next_day, before}
use go_finish_line_api.Civil.Laws.{date_key-next_day, next_day_least}
use go_finish_line_api.Report.ReadModel.{TimelinePoint, last_write, count_on}
use go_finish_line_api.Report.Repository.{
  confirmed_rows, scope_confirmed, in_window, same_day, count_in, group_from, group_count,
  timeline_sql,
}
use go_finish_line_api.Report.Service.Window.{point_of, last_write-sort}
use go_finish_line_api.Participant.Values.{Status, pending, confirmed}
use go_finish_line_api.Participant.Registration.{Registration}
use go_finish_line_api.Store.{Db, Answer, row}

count_in-same :
    (a b : Date) (all : List Date)
    → date_key a ≡ date_key b
    → count_in same_day a all ≡ count_in same_day b all
unfolding count_in
count_in-same a b [] h = refl
count_in-same a b (d ∷ all) h = ground (arith, count_in-same a b all h)

count_in-none :
    (day : Date) (all : List Date) → any (same_day day) all ≡ false → count_in same_day day all ≡ 0
unfolding count_in
count_in-none day [] h = refl
count_in-none day (d ∷ all) h = ground (arith, count_in-none day all)

any-same :
    (a b : Date) (ds : List Date)
    → date_key a ≡ date_key b
    → any (same_day a) ds ≡ any (same_day b) ds
any-same a b [] h = refl
any-same a b (d ∷ ds) h = ground (arith, any-same a b ds h)

last_write-group :
    (day : Date) (seen all ds : List Date) (n : ℕ)
    → last_write day (map point_of (group_from same_day seen all ds)) n ≡ (
        if any (same_day day) seen
        then n
        else if any (same_day day) ds
        then count_in same_day day all
        else n)
unfolding last_write group_from
last_write-group day seen all [] n = ground arith
last_write-group day seen all (d ∷ ds) n = elim (Bool-cases (date_key d == date_key day)) [
  | inl here ↦ ground (
    arith,
    count_in-same d day all,
    any-same d day seen,
    last_write-group day (d ∷ seen) all ds n,
    last_write-group day (d ∷ seen) all ds (count_in same_day d all),
  )
  | inr there ↦ ground (arith, last_write-group day (d ∷ seen) all ds n)
]

count_on-group :
    (day : Date) (ds : List Date)
    → count_on (map point_of (group_count same_day ds)) day ≡ count_in same_day day ds
unfolding count_on group_count
count_on-group day ds = ground (arith, last_write-group day [] ds ds 0, count_in-none day ds)

abbrev pub created_on : Date → Registration → Bool
created_on day r = same_day day r.created_at.date

count_in-rows :
    (day : Date) (rows : List Registration)
    → count_in same_day day (map (λ r. r.created_at.date) rows)
      ≡ length (select (created_on day) rows)
unfolding count_in
count_in-rows day [] = refl
count_in-rows day (r ∷ rows) = ground (arith, count_in-rows day rows)

abbrev pub points : Answer (List TimelinePoint) → List TimelinePoint
points (row ps) = ps
points _ = []

-- A confirmed registration of the race asked for, or of any, that was created on the day.
abbrev pub is_run : Status → Bool
is_run pending = false
is_run confirmed = true

Status-cases : (st : Status) → (st ≡ pending) ⊎ (st ≡ confirmed)
Status-cases pending = inl refl
Status-cases confirmed = inr refl

abbrev pub is_of : Option ℕ → ℕ → Bool
is_of none race_id = true
is_of (some id) race_id = race_id == id

abbrev pub counted : Option ℕ → Date → Registration → Bool
counted race_id day r =
    is_run r.status && is_of race_id r.race_id && date_key r.created_at.date == date_key day

-- A day of the range asked for, both ends included.
abbrev pub in_range : (from to day : Date) → Bool
in_range from to day = leb (date_key from) (date_key day) && leb (date_key day) (date_key to)

midnight-ltb : (k m n : ℕ) → n < day_nanos → ltb (k * day_nanos + n) (m * day_nanos + 0) ≡ ltb k m
midnight-ltb k m n h = ground arith

before-midnight :
    (t : Time) (d : Date)
    → t.nanos < day_nanos
    → before t (midnight d) ≡ ltb (date_key t.date) (date_key d)
unfolding before
before-midnight t d within = midnight-ltb (date_key t.date) (date_key d) t.nanos within

in_window-before :
    (from to : Date) (r : Registration)
    → in_window from to r
      ≡ (not (before r.created_at (midnight from)) && before r.created_at (midnight (next_day to)))
unfolding in_window
in_window-before from to r = refl

-- The bounds of the window are the first and the last day.
in_window-in_range :
    (from to day : Date) (r : Registration)
    → IsDate day
    → IsDate to
    → r.created_at.nanos < day_nanos
    → created_on day r ≡ true
    → in_window from to r ≡ in_range from to day
in_window-in_range from to day r is_day is_to within here =
    in_window-before from to r
    ∙ rw
        (
          before-midnight r.created_at from within,
          before-midnight r.created_at (next_day to) within,
        )
        (ground (arith, here, date_key-next_day to is_to, next_day_least to day is_to is_day))

counted-cases :
    (race_id : Option ℕ) (day : Date) (r : Registration)
    → (scope_confirmed race_id r && created_on day r) ≡ counted race_id day r
unfolding scope_confirmed
counted-cases none day r = elim (Status-cases r.status) [
  | inl waits ↦ rw waits refl
  | inr runs ↦ rw runs (ground arith)
]
counted-cases (some id) day r = elim (Status-cases r.status) [
  | inl waits ↦ rw waits refl
  | inr runs ↦ rw runs (ground arith)
]

-- Among the rows that the query takes, those of the day.
window_rows :
    (race_id : Option ℕ) (from to day : Date) (rows : List Registration)
    → IsDate day
    → IsDate to
    → All (λ r. r.created_at.nanos < day_nanos) rows
    → length (
        select
          (created_on day)
          (select (in_window from to) (select (scope_confirmed race_id) rows)))
      ≡ (if in_range from to day then length (select (counted race_id day) rows) else 0)
window_rows race_id from to day [] is_day is_to h = ground arith
window_rows race_id from to day (r ∷ rows) is_day is_to (h, hs) = ground (
  arith,
  window_rows race_id from to day rows is_day is_to hs,
  counted-cases race_id day r,
  in_window-in_range from to day r is_day is_to h,
)

-- In tables of valid times, what the query finds for a day, read as the timeline reads it, is the
-- number of confirmed registrations of the race, or of all races, that were created on the day, if
-- the day lies in the range asked for, both of its ends included, and 0 otherwise.
pub timeline_sql-counts :
    (race_id : Option ℕ) (from to day : Date) (db : Db)
    → IsDate day
    → IsDate to
    → All (λ r. r.created_at.nanos < day_nanos) db.registrations
    → count_on (points (timeline_sql race_id from to db).0) day
      ≡ (if in_range from to day then length (select (counted race_id day) db.registrations) else 0)
unfolding timeline_sql count_on confirmed_rows
timeline_sql-counts race_id from to day db is_day is_to valid =
    let rows = select (in_window from to) (confirmed_rows race_id db) in
    let dates = map (λ (r : Registration). r.created_at.date) rows in
    last_write-sort day (map point_of (group_count same_day dates)) 0
    ∙ count_on-group day dates
    ∙ count_in-rows day rows
    ∙ window_rows race_id from to day db.registrations is_day is_to valid
