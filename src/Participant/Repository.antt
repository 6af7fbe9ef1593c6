-- ===== src/Participant/Repository.antt =====
-- internal/participant/adapters/postgres, with the constraints of its tables: unique e-mails
-- (citext), one registration to a person in a race, one dorsal to a registration in a race, and
-- registrations that refer to a person and a race. The statements run on the domain's
-- values; Schema has the rows.
pub mod Apart
pub mod Places
pub mod Sound
pub mod References
pub mod Dorsals
use go_finish_line_api.Prelude.{
  ℕ, Bool, false, not, ◌&&◌, ◌||◌, Option, none, some, List, [], ◌∷◌, ◌++◌, map, any, select, find,
  ◌==◌, ℤ, pos, ◌+ℤ◌, ltb_ℤ, eq_ℤ, if◌then◌else◌,
}
use go_finish_line_api.Text.{Text, citext_eq, Platform}
use go_finish_line_api.Civil.{Time}
use go_finish_line_api.Apperr.{
  Err, app, signal, AppError, ParticipantError, already_registered, dorsal_taken,
}
use go_finish_line_api.Participant.Values.{Status}
use go_finish_line_api.Participant.Person.{Participant}
use go_finish_line_api.Participant.Registration.{Registration}
use go_finish_line_api.Store.{
  Db, row, duplicated_key, failed, Sql, Action, ◌>>=◌, ◌>>◌, pure, sql_error, query, exec, first,
}

abbrev not_found : Err
not_found = app (AppError.participant ParticipantError.not_found)

-- `DoUpdates: nombres, apellidos, telefono, documento_identidad, fecha_nacimiento, genero`
abbrev pub refresh : Participant → Participant → Participant
refresh new old = record old {
  first_names = new.first_names;
  last_names = new.last_names;
  phone = new.phone;
  document_id = new.document_id;
  birth_date = new.birth_date;
  gender = new.gender;
}

-- INSERT … ON CONFLICT (email) DO UPDATE
unfoldable pub upsert_sql : Platform → Participant → Sql (Unit {0})
upsert_sql pf p db =
    if any (λ old. citext_eq pf old.email p.email) db.participants
    then (
      row tt,
      record db {
        participants =
            map (λ old. if citext_eq pf old.email p.email then refresh p old else old)
              db.participants;
      },
    )
    else if any (λ old. old.id == p.id) db.participants
    then (duplicated_key, db)
    else (row tt, record db { participants = db.participants ++ p ∷ [] })

-- `UpsertByEmail`
unfoldable pub upsert_by_email : Platform → Participant → Action Participant
unfolding upsert_sql
upsert_by_email pf p = do
  exec "upserting participant" (upsert_sql pf p)
  exec "reloading upserted participant"
      (first (λ db. db.participants) (λ old. citext_eq pf old.email p.email) (λ old. old))

unfoldable pub participant_by_id : ℕ → Action Participant
participant_by_id id =
    query (sql_error "selecting participant by id") not_found "selecting participant by id"
      (first (λ db. db.participants) (λ p. p.id == id) (λ p. p))

-- NULLs are distinct.
abbrev pub same_dorsal : Option ℤ → Option ℤ → Bool
same_dorsal (some a) (some b) = eq_ℤ a b
same_dorsal (some a) none = false
same_dorsal none d = false

-- Two rows that the primary key or one of the two unique indexes keeps apart.
unfoldable pub clashes : Registration → Registration → Bool
clashes a b =
    a.id == b.id
    || a.race_id == b.race_id
      && (a.participant_id == b.participant_id || same_dorsal a.dorsal b.dorsal)

unfoldable pub insert_sql : Registration → Sql (Unit {0})
unfolding clashes
insert_sql r db =
    if any (clashes r) db.registrations
    then (duplicated_key, db)
    else if any (λ p. p.id == r.participant_id) db.participants
        && any (λ race. race.id == r.race_id) db.races
    then (row tt, record db { registrations = db.registrations ++ r ∷ [] })
    else (failed, db)

-- `Create`: a duplicate key is taken for the pair of race and person.
unfoldable pub create : Registration → Action (Unit {0})
unfolding insert_sql
create r =
    query (app (AppError.participant already_registered)) not_found "inserting registration"
      (insert_sql r)

unfoldable pub delete_sql : ℕ → Sql (Unit {0})
delete_sql id db =
    (row tt, record db { registrations = select (λ r. not (r.id == id)) db.registrations })

unfoldable pub delete : ℕ → Action (Unit {0})
unfolding delete_sql
delete id = exec "deleting registration" (delete_sql id)

unfoldable pub by_id : ℕ → Action Registration
by_id id =
    query (sql_error "selecting registration by id") not_found "selecting registration by id"
      (first (λ db. db.registrations) (λ r. r.id == id) (λ r. r))

abbrev pub larger : Option ℤ → Option ℤ → Option ℤ
larger none m = m
larger (some d) none = some d
larger (some d) (some m) = if ltb_ℤ m d then some d else some m

-- MAX(dorsal) over the rows of a race; it passes over NULLs.
unfoldable pub max_dorsal : ℕ → List Registration → Option ℤ
max_dorsal race_id [] = none
max_dorsal race_id (r ∷ rs) =
    let m = max_dorsal race_id rs in if r.race_id == race_id then larger r.dorsal m else m

abbrev pub coalesce : Option ℤ → ℤ → ℤ
coalesce none d = d
coalesce (some v) d = v

unfoldable pub next_dorsal : ℕ → Action ℤ
unfolding max_dorsal ◌+ℤ◌
next_dorsal race_id =
    exec "reading max dorsal"
      (λ db. (row (coalesce (max_dorsal race_id db.registrations) (pos 0) +ℤ pos 1), db))

-- A row of another id that has the dorsal in the race of row `id`.
unfoldable pub dorsal_in_use : ℕ → Option ℤ → List Registration → Bool
dorsal_in_use id dorsal rows =
    any
      (λ r.
        r.id == id
        && any (λ q. not (q.id == id) && q.race_id == r.race_id && same_dorsal q.dorsal dorsal)
            rows)
      rows

abbrev pub confirm_row : ℕ → Status → Option ℤ → Option Time → Registration → Registration
confirm_row id status dorsal confirmed_at r =
    if r.id == id
    then record r { status = status; dorsal = dorsal; confirmed_at = confirmed_at }
    else r

-- UPDATE registrations SET estado, dorsal, confirmed_at WHERE id
unfoldable pub update_sql : Registration → Sql (Unit {0})
unfolding dorsal_in_use
update_sql r db = if dorsal_in_use r.id r.dorsal db.registrations then (duplicated_key, db) else (
  row tt,
  record db {
    registrations = map (confirm_row r.id r.status r.dorsal r.confirmed_at) db.registrations;
  },
)

unfoldable pub save_confirmation : Registration → Action (Unit {0})
unfolding update_sql
save_confirmation r = query (signal dorsal_taken) not_found "saving confirmation" (update_sql r)
