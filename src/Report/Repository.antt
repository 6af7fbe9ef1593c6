-- ===== src/Report/Repository.antt =====
-- internal/report/adapters/postgres/repository.go: the read-side queries.
use go_finish_line_api.Prelude.{
  ℕ, zero, suc, ◌++◌, pos_part, Bool, true, not, ◌&&◌, ◌||◌, Option, none, some, List, [], ◌∷◌, map,
  any, select, length, ltb, leb, ◌==◌, ℤ, pos, negsuc, if◌then◌else◌,
}
use go_finish_line_api.Sort.{sort_by}
use go_finish_line_api.Text.{Text, text_eq, is_empty}
use go_finish_line_api.Civil.{Date, date_key, next_day, midnight, before}
use go_finish_line_api.Participant.Values.{is_confirmed, gender_text, shirt_size_text}
use go_finish_line_api.Participant.Person.{Participant}
use go_finish_line_api.Participant.Registration.{Registration}
use go_finish_line_api.Report.Filter.{ParticipantQuery}
use go_finish_line_api.Report.Ports.{ReportRepository}
use go_finish_line_api.Report.ReadModel.{
  TimelinePoint, ReferralCount, ShirtSizeCount, ParticipantRow,
}
use go_finish_line_api.Store.{Db, row, Sql, Action, ◌>>=◌, pure, exec}

abbrev of_race : Option ℕ → Registration → Bool
of_race none r = true
of_race (some id) r = r.race_id == id

-- `scopeConfirmed`
unfoldable pub scope_confirmed : Option ℕ → Registration → Bool
scope_confirmed race_id r = is_confirmed r.status && of_race race_id r

-- What the report's queries take from the database: the order of its collation and
-- ILIKE of a value and a pattern.
pub record Collation : Type 0 where
  pub less : Text → Text → Bool
  pub ilike : (value pattern : Text) → Bool

-- GROUP BY with COUNT(*), in the order of first rows.
module _ {A : Type 0} (same : A → A → Bool) where
  unfoldable pub count_in : A → List A → ℕ
  count_in a [] = 0
  count_in a (b ∷ bs) = let rest = count_in a bs in if same a b then suc rest else rest

  unfoldable pub group_from : (seen all : List A) → List A → List (A × ℕ)
  unfolding count_in
  group_from seen all [] = []
  group_from seen all (a ∷ rows) =
      let rest = group_from (a ∷ seen) all rows in
      if any (same a) seen then rest else (a, count_in a all) ∷ rest

  unfoldable pub group_count : List A → List (A × ℕ)
  unfolding group_from
  group_count rows = group_from [] rows rows

unfoldable pub confirmed_rows : Option ℕ → Db → List Registration
unfolding scope_confirmed
confirmed_rows race_id db = select (scope_confirmed race_id) db.registrations

-- `(r.created_at >= from) AND (r.created_at < to + 1 day)`
unfoldable pub in_window : (from to : Date) → Registration → Bool
unfolding before next_day
in_window from to r =
    not (before r.created_at (midnight from)) && before r.created_at (midnight (next_day to))

abbrev pub same_day : Date → Date → Bool
same_day a b = date_key a == date_key b

-- `RegistrationsTimeline`
unfoldable pub timeline_sql : Option ℕ → (from to : Date) → Sql (List TimelinePoint)
unfolding group_count confirmed_rows in_window sort_by
timeline_sql race_id from to db = (
  row (
      sort_by (λ a b. ltb (date_key a.date) (date_key b.date))
        (map (λ g. record { date = g.0; count = g.1 })
          (group_count same_day (
            map (λ r. r.created_at.date)
              (select (in_window from to) (confirmed_rows race_id db)))))),
  db,
)

unfoldable pub registrations_timeline : Option ℕ → (from to : Date) → Action (List TimelinePoint)
unfolding timeline_sql
registrations_timeline race_id from to =
    exec "counting registrations per day" (timeline_sql race_id from to)

-- `ReferralSources`, ORDER BY count DESC, source ASC
unfoldable pub referral_sources : Collation → Option ℕ → Action (List ReferralCount)
unfolding group_count confirmed_rows sort_by
referral_sources by race_id = exec "counting referral sources" λ db. (
  row (
      sort_by (λ a b. ltb b.count a.count || a.count == b.count && by.less a.source b.source)
        (map (λ g. record { source = g.0; count = g.1 })
          (group_count text_eq (map (λ r. r.referral_source) (confirmed_rows race_id db))))),
  db,
)

-- `ShirtSizes`
unfoldable pub shirt_sizes : Option ℕ → Action (List ShirtSizeCount)
unfolding group_count confirmed_rows
shirt_sizes race_id = exec "counting shirt sizes" λ db. (
  row (
      map (λ g. record { size = g.0; count = g.1 })
        (group_count text_eq
          (map (λ r. shirt_size_text r.shirt_size) (confirmed_rows race_id db)))),
  db,
)

abbrev pub at_least : Option Date → Date → Bool
at_least none d = true
at_least (some from) d = leb (date_key from) (date_key d)

abbrev pub at_most : Option Date → Date → Bool
at_most none d = true
at_most (some to) d = leb (date_key d) (date_key to)

-- The bounds on the column `fecha_nacimiento`
unfoldable pub born_within : ParticipantQuery → Date → Bool
unfolding date_key
born_within q d = at_least q.birth_from d && at_most q.birth_to d

abbrev ran : Option ℕ → Participant → Db → Bool
ran none p db = true
ran (some id) p db =
    any (λ f. f.participant_id == p.id && f.race_id == id && is_confirmed f.status) db.registrations

abbrev found_by : Collation → Text → Participant → Bool
found_by by search p =
    let like = b'%' ∷ search ++ b'%' ∷ [] in
    is_empty search
    || by.ilike p.first_names like
    || by.ilike p.last_names like
    || by.ilike p.email like
    || by.ilike p.document_id like

-- `filterParticipants`
unfoldable pub filter_participants : Collation → ParticipantQuery → Db → List Participant
unfolding born_within text_eq
filter_participants by q db =
    select
      (λ p.
        found_by by q.search p
        && (is_empty q.gender || text_eq (gender_text p.gender) q.gender)
        && born_within q p.birth_date.date
        && ran q.race_id p db)
      db.participants

-- COUNT(DISTINCT reg.race_id) over the confirmed registrations of a person
unfoldable pub races_count : ℕ → List Registration → ℕ
unfolding group_count
races_count id rows = length (
    group_count (λ a b. a == b)
      (map (λ r. r.race_id) (select (λ r. r.participant_id == id && is_confirmed r.status) rows)))

abbrev by_name : Collation → Participant → Participant → Bool
by_name by p q =
    by.less p.last_names q.last_names
    || not (by.less q.last_names p.last_names)
      && (by.less p.first_names q.first_names
          || not (by.less q.first_names p.first_names) && ltb p.id q.id)

abbrev pub drop {ℓ} : {A : Type ℓ} → ℕ → List A → List A
drop zero xs = xs
drop (suc n) [] = []
drop (suc n) (x ∷ xs) = drop n xs

abbrev pub take {ℓ} : {A : Type ℓ} → ℕ → List A → List A
take zero xs = []
take (suc n) [] = []
take (suc n) (x ∷ xs) = x ∷ take n xs

-- LIMIT and OFFSET: gorm leaves out a negative one.
unfoldable pub page_of {ℓ} : {A : Type ℓ} → (limit offset : ℤ) → List A → List A
page_of (pos n) offset xs = take n (drop (pos_part offset) xs)
page_of (negsuc n) offset xs = drop (pos_part offset) xs

abbrev read_row : Db → Participant → ParticipantRow
read_row db p = record {
  participant_id = p.id;
  first_names = p.first_names;
  last_names = p.last_names;
  email = p.email;
  phone = p.phone;
  document_id = p.document_id;
  gender = gender_text p.gender;
  birth_date = p.birth_date.date;
  age = 0;
  races_count = races_count p.id db.registrations;
}

unfoldable pub page_sql : Collation → ParticipantQuery → Sql (List ParticipantRow)
unfolding filter_participants races_count page_of sort_by
page_sql by q db = (
  row (
      map (read_row db)
        (page_of q.limit q.offset (sort_by (by_name by) (filter_participants by q db)))),
  db,
)

-- `Participants`: the page and the total, in two statements.
unfoldable pub participants : Collation → ParticipantQuery → Action (List ParticipantRow × ℕ)
unfolding page_sql
participants by q = do
  total ← exec "counting participants" λ db. (row (length (filter_participants by q db)), db)
  rows ← exec "selecting participants" (page_sql by q)
  pure (rows, total)

-- `NewRepository`: the repository as the port that the service takes.
abbrev pub report_repository : Collation → ReportRepository
report_repository by = record {
  registrations_timeline = registrations_timeline;
  referral_sources = referral_sources by;
  shirt_sizes = shirt_sizes;
  participants = participants by;
}
