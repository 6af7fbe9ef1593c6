-- ===== src/Participant/Repository/Sound.antt =====
-- The invariant of the tables that registrations touch, and that every statement of the program
-- keeps it.
use go_finish_line_api.Prelude.{
  ℕ, ◌≡◌, inl, inr, true, false, not, none, some, List, [], ◌∷◌, ◌++◌, map, any, ◌==◌, All,
  All-append, All-select, Bool-cases, ℤ, pos, ◌≤ℤ◌,
}
use go_finish_line_api.Civil.{Time}
use go_finish_line_api.Race.Entity.{Race}
use go_finish_line_api.Participant.Values.{pending, confirmed}
use go_finish_line_api.Participant.Person.{Participant}
use go_finish_line_api.Participant.Registration.{Registration}
use go_finish_line_api.Participant.Repository.{
  clashes, dorsal_in_use, confirm_row, insert_sql, delete_sql, update_sql,
}
use go_finish_line_api.Participant.Repository.Apart.{
  Apart, Apart-insert, Apart-select, Apart-confirm_row,
}
use go_finish_line_api.Store.{Db}

-- A pending row has no dorsal and no time of confirmation; a confirmed one has a dorsal from 1 on
-- and a time.
pub data IsRow (r : Registration) : Type 0 where
  waiting : r.status ≡ pending → r.dorsal ≡ none → r.confirmed_at ≡ none → IsRow r
  running :
      (d : ℤ) (t : Time)
      → r.status ≡ confirmed
      → r.dorsal ≡ some d
      → pos 1 ≤ℤ d
      → r.confirmed_at ≡ some t
      → IsRow r

-- The person and the race of a row exist.
abbrev pub Refers : List Participant → List Race → Registration → Type 0
Refers people races r =
    (any (λ p. p.id == r.participant_id) people ≡ true)
    × (any (λ race. race.id == r.race_id) races ≡ true)

pub record IsSound (db : Db) : Type 0 where
  pub apart : Apart db.registrations
  pub rows : All IsRow db.registrations
  pub refers : All (Refers db.participants db.races) db.registrations

inserted-IsSound :
    (r : Registration) (db : Db)
    → IsRow r
    → IsSound db
    → any (clashes r) db.registrations ≡ false
    → Refers db.participants db.races r
    → IsSound (record db { registrations = db.registrations ++ r ∷ [] })
inserted-IsSound r db good s free refs = record {
  apart = Apart-insert r db.registrations s.apart free;
  rows = All-append IsRow db.registrations (r ∷ []) s.rows (good, tt);
  refers =
      All-append (Refers db.participants db.races) db.registrations (r ∷ []) s.refers (refs, tt);
}

-- The insertion of a registration keeps the invariant, whatever the statement answers.
pub insert_sql-IsSound :
    (r : Registration) (db : Db) → IsRow r → IsSound db → IsSound (insert_sql r db).1
unfolding insert_sql
insert_sql-IsSound r db good s = elim (Bool-cases (any (clashes r) db.registrations)) [
  | inl clash ↦ rw clash s
  | inr free ↦ rw free (elim (Bool-cases (any (λ p. p.id == r.participant_id) db.participants)) [
    | inr nobody ↦ rw nobody s
    | inl person ↦ rw person (elim (Bool-cases (any (λ race. race.id == r.race_id) db.races)) [
      | inr nowhere ↦ rw nowhere s
      | inl race ↦ rw race (inserted-IsSound r db good s free (person, race))
    ])
  ])
]

-- So does a deletion.
pub delete_sql-IsSound : (id : ℕ) (db : Db) → IsSound db → IsSound (delete_sql id db).1
unfolding delete_sql
delete_sql-IsSound id db s = record {
  apart = Apart-select (λ r. not (r.id == id)) db.registrations s.apart;
  rows = All-select IsRow (λ r. not (r.id == id)) db.registrations s.rows;
  refers =
      All-select (Refers db.participants db.races) (λ r. not (r.id == id)) db.registrations
        s.refers;
}

confirm_row-IsRow :
    (r q : Registration)
    → IsRow r
    → IsRow q
    → IsRow (confirm_row r.id r.status r.dorsal r.confirmed_at q)
confirm_row-IsRow r q (waiting a b c) k = elim (Bool-cases (q.id == r.id)) [
  | inl same ↦ rw same (waiting a b c)
  | inr other ↦ rw other k
]
confirm_row-IsRow r q (running d t a b c e) k = elim (Bool-cases (q.id == r.id)) [
  | inl same ↦ rw same (running d t a b c e)
  | inr other ↦ rw other k
]

All-map {ℓ} :
    {A : Type ℓ} (P : A → Type 0) (f : A → A) (keep : (a : A) → P a → P (f a)) (xs : List A)
    → All P xs
    → All P (map f xs)
All-map P f keep [] h = tt
All-map P f keep (x ∷ xs) h = (keep x h.0, All-map P f keep xs h.1)

confirm_row-Refers :
    (people : List Participant) (races : List Race) (r q : Registration)
    → Refers people races q
    → Refers people races (confirm_row r.id r.status r.dorsal r.confirmed_at q)
confirm_row-Refers people races r q h = elim (Bool-cases (q.id == r.id)) [
  | inl same ↦ rw same h
  | inr other ↦ rw other h
]

-- The update of a confirmation keeps the invariant, whatever the statement answers.
pub update_sql-IsSound :
    (r : Registration) (db : Db) → IsRow r → IsSound db → IsSound (update_sql r db).1
unfolding update_sql
update_sql-IsSound r db good s = elim (Bool-cases (dorsal_in_use r.id r.dorsal db.registrations)) [
  | inl taken ↦ rw taken s
  | inr free ↦ rw free (record {
    apart = Apart-confirm_row r.id r.status r.dorsal r.confirmed_at db.registrations s.apart free;
    rows = All-map IsRow _ (λ q k. confirm_row-IsRow r q good k) db.registrations s.rows;
    refers =
        All-map (Refers db.participants db.races) _
          (λ q k. confirm_row-Refers db.participants db.races r q k) db.registrations s.refers;
  })
]
