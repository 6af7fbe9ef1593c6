-- ===== src/Schema/Statements.antt =====
-- The statements, on the rows of internal/*/adapters/postgres: the constraints that the
-- tags of the row types and the migrations declare, and the columns that each statement assigns.
use go_finish_line_api.Prelude.{
  ℕ, ℤ, Bool, true, not, ◌&&◌, ◌||◌, Option, none, some, is_some, List, [], ◌∷◌, ◌++◌, map, any,
  select, find, ◌==◌, if◌then◌else◌,
}
use go_finish_line_api.Text.{Text, text_eq, citext_eq, Platform}
use go_finish_line_api.Race.Entity.{Race}
use go_finish_line_api.Race.Repository.{fits_integer}
use go_finish_line_api.User.Entity.{User}
use go_finish_line_api.Auth.Token.{RefreshToken}
use go_finish_line_api.Participant.Repository.{same_dorsal}
use go_finish_line_api.Schema.{
  Timestamp, nullable, RaceModel, UserModel, RefreshTokenModel, to_race_domain, to_user_domain,
  to_refresh_token_domain,
}
use go_finish_line_api.Schema.Participants.{
  ParticipantModel, RegistrationModel, to_participant_domain, to_registration_domain,
}
use go_finish_line_api.Participant.Person.{Participant}
use go_finish_line_api.Participant.Registration.{Registration}
use go_finish_line_api.Store.{Answer, row, duplicated_key, record_not_found, failed}

pub record Rows : Type 0 where
  pub participants : List ParticipantModel
  pub registrations : List RegistrationModel
  pub races : List RaceModel
  pub users : List UserModel
  pub refresh_tokens : List RefreshTokenModel

abbrev pub Write : Type 0
Write = Rows → Answer (Unit {0}) × Rows

abbrev pub assign_person : ParticipantModel → ParticipantModel → ParticipantModel
assign_person new old = record old {
  nombres = new.nombres;
  apellidos = new.apellidos;
  telefono = new.telefono;
  documento_identidad = new.documento_identidad;
  fecha_nacimiento = new.fecha_nacimiento;
  genero = new.genero;
}

abbrev pub upsert_person_row : Platform → ParticipantModel → ParticipantModel → ParticipantModel
upsert_person_row pf m old = if citext_eq pf old.email m.email then assign_person m old else old

-- `uniqueIndex` on email (citext), `primaryKey` on id
unfoldable pub upsert_person : Platform → ParticipantModel → Write
upsert_person pf m rows =
    if any (λ old. citext_eq pf old.email m.email) rows.participants
    then (row tt, record rows { participants = map (upsert_person_row pf m) rows.participants })
    else if any (λ old. old.id == m.id) rows.participants
    then (duplicated_key, rows)
    else (row tt, record rows { participants = rows.participants ++ m ∷ [] })

-- `primaryKey`, `uq_registration_race_participant` and `uq_registration_race_dorsal`
abbrev pub collides : RegistrationModel → RegistrationModel → Bool
collides a b =
    a.id == b.id
    || a.race_id == b.race_id
      && (a.participant_id == b.participant_id || same_dorsal a.dorsal b.dorsal)

-- `dorsal` is of type integer and may be NULL.
abbrev pub fits_dorsal : Option ℤ → Bool
fits_dorsal none = true
fits_dorsal (some d) = fits_integer d

-- `fk_registrations_participant` and `fk_registrations_race`
unfoldable pub insert_registration : RegistrationModel → Write
insert_registration m rows =
    if not (fits_dorsal m.dorsal)
    then (failed, rows)
    else if any (collides m) rows.registrations
    then (duplicated_key, rows)
    else if any (λ p. p.id == m.participant_id) rows.participants
        && any (λ race. race.id == m.race_id) rows.races
    then (row tt, record rows { registrations = rows.registrations ++ m ∷ [] })
    else (failed, rows)

unfoldable pub delete_registration : ℕ → Write
delete_registration id rows =
    (row tt, record rows { registrations = select (λ r. not (r.id == id)) rows.registrations })

abbrev pub taken_by_other : RegistrationModel → List RegistrationModel → RegistrationModel → Bool
taken_by_other m rows r =
    r.id == m.id
    && any (λ q. not (q.id == m.id) && q.race_id == r.race_id && same_dorsal q.dorsal m.dorsal) rows

abbrev pub confirm_columns : RegistrationModel → RegistrationModel → RegistrationModel
confirm_columns m r =
    if r.id == m.id
    then record r { estado = m.estado; dorsal = m.dorsal; confirmed_at = m.confirmed_at }
    else r

-- SaveConfirmation: the columns estado, dorsal and confirmed_at
unfoldable pub update_registration : RegistrationModel → Write
update_registration m rows =
    if not (fits_dorsal m.dorsal)
    then (failed, rows)
    else if any (taken_by_other m rows.registrations) rows.registrations
    then (duplicated_key, rows)
    else (row tt, record rows { registrations = map (confirm_columns m) rows.registrations })

abbrev pub upsert_race_row : RaceModel → RaceModel → RaceModel
upsert_race_row m old =
    if text_eq old.document_id m.document_id
    then record old {
      nombre = m.nombre;
      fecha = m.fecha;
      capacidad = m.capacidad;
      updated_at = m.updated_at;
    }
    else old

-- `uniqueIndex` on document_id; `capacidad` is of type integer.
unfoldable pub upsert_race : RaceModel → Write
upsert_race m rows =
    if not (fits_integer m.capacidad)
    then (failed, rows)
    else if any (λ old. text_eq old.document_id m.document_id) rows.races
    then (row tt, record rows { races = map (upsert_race_row m) rows.races })
    else if any (λ old. old.id == m.id) rows.races
    then (duplicated_key, rows)
    else (row tt, record rows { races = rows.races ++ m ∷ [] })

-- ON DELETE RESTRICT
unfoldable pub delete_race : Text → Write
delete_race document_id rows =
    if any
      (λ r. text_eq r.document_id document_id && any (λ g. g.race_id == r.id) rows.registrations)
      rows.races
    then (failed, rows)
    else (
      row tt,
      record rows { races = select (λ r. not (text_eq r.document_id document_id)) rows.races },
    )

unfoldable pub insert_user : Platform → UserModel → Write
insert_user pf m rows =
    if any (λ old. old.id == m.id || citext_eq pf old.email m.email) rows.users
    then (duplicated_key, rows)
    else (row tt, record rows { users = rows.users ++ m ∷ [] })

abbrev pub password_column : ℕ → Text → UserModel → UserModel
password_column id hash u = if u.id == id then record u { password_hash = hash } else u

unfoldable pub update_user_password : ℕ → Text → Write
update_user_password id hash rows =
    if any (λ u. u.id == id) rows.users
    then (row tt, record rows { users = map (password_column id hash) rows.users })
    else (record_not_found, rows)

-- `uniqueIndex` on token_hash, `fk_refresh_tokens_user`
unfoldable pub insert_token : RefreshTokenModel → Write
insert_token m rows =
    if any (λ old. old.id == m.id || text_eq old.token_hash m.token_hash) rows.refresh_tokens
    then (duplicated_key, rows)
    else if any (λ u. u.id == m.user_id) rows.users
    then (row tt, record rows { refresh_tokens = rows.refresh_tokens ++ m ∷ [] })
    else (failed, rows)

abbrev pub rotated_column : ℕ → Timestamp → RefreshTokenModel → RefreshTokenModel
rotated_column id now t = if t.id == id then record t { rotated_at = some now } else t

unfoldable pub rotate_token : ℕ → Timestamp → Write
rotate_token id now rows =
    (row tt, record rows { refresh_tokens = map (rotated_column id now) rows.refresh_tokens })

abbrev pub revoked_column :
    (RefreshTokenModel → Bool) → Timestamp → RefreshTokenModel → RefreshTokenModel
revoked_column p now t =
    if p t && not (is_some t.revoked_at) then record t { revoked_at = some now } else t

-- RevokeFamily and RevokeAllForUser, by the column that is compared
unfoldable pub revoke_tokens : (RefreshTokenModel → Bool) → Timestamp → Write
revoke_tokens p now rows =
    (row tt, record rows { refresh_tokens = map (revoked_column p now) rows.refresh_tokens })

abbrev pub converted : {A B : Type 0} → (A → Option B) → Option A → Option B
converted f none = none
converted f (some m) = f m

-- `First(&m, "id = ?", id)` of a registration, and its conversion
unfoldable pub read_registration : ℕ → Rows → Option Registration
read_registration id rows =
    converted to_registration_domain (find (λ r. r.id == id) rows.registrations)

-- The same of a person
unfoldable pub read_person : ℕ → Rows → Option Participant
read_person id rows = converted to_participant_domain (find (λ p. p.id == id) rows.participants)

-- The same of a race and of a user
unfoldable pub read_race : ℕ → Rows → Option Race
read_race id rows = nullable to_race_domain (find (λ r. r.id == id) rows.races)

unfoldable pub read_user : ℕ → Rows → Option User
read_user id rows = nullable to_user_domain (find (λ u. u.id == id) rows.users)

-- `First(&m, "token_hash = ?", hash)`
unfoldable pub read_token : Text → Rows → Option RefreshToken
read_token hash rows =
    nullable to_refresh_token_domain (find (λ t. text_eq t.token_hash hash) rows.refresh_tokens)
