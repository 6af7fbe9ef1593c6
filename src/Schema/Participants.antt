-- ===== src/Schema/Participants.antt =====
-- internal/participant/adapters/postgres/model.go. In Go a status, a gender and a size are strings,
-- which the constants of the domain name and the conversions only retype; a row with any other text
-- does not come from this program, and has no value here.
use go_finish_line_api.Prelude.{ℕ, ◌≡◌, refl, Option, none, some, ℤ, if◌then◌else◌}
use go_finish_line_api.Text.{Text, codes, text_eq, is_empty}
use go_finish_line_api.Civil.{Date, midnight}
use go_finish_line_api.Schema.{Timestamp, timestamptz, instant, nullable}
use go_finish_line_api.Participant.Values.{
  Gender, male, female, other, gender_text, ShirtSize, unsized, xs, s, m, l, xl, xxl,
  shirt_size_text, Status, pending, confirmed, status_text,
}
use go_finish_line_api.Participant.Person.{Participant}
use go_finish_line_api.Participant.Registration.{Registration}

pub record ParticipantModel : Type 0 where
  pub id : ℕ
  pub nombres : Text
  pub apellidos : Text
  pub email : Text
  pub telefono : Text
  pub documento_identidad : Text
  pub fecha_nacimiento : Date
  pub genero : Text
  pub created_at : Timestamp

pub record RegistrationModel : Type 0 where
  pub id : ℕ
  pub participant_id : ℕ
  pub race_id : ℕ
  pub como_te_enteraste : Text
  pub modalidad : Text
  pub talla_polera : Text
  pub estado : Text
  pub dorsal : Option ℤ
  pub created_at : Timestamp
  pub confirmed_at : Option Timestamp

abbrev pub to_participant_model : Participant → ParticipantModel
to_participant_model p = record {
  id = p.id;
  nombres = p.first_names;
  apellidos = p.last_names;
  email = p.email;
  telefono = p.phone;
  documento_identidad = p.document_id;
  fecha_nacimiento = p.birth_date.date;
  genero = gender_text p.gender;
  created_at = timestamptz p.created_at;
}

abbrev pub to_registration_model : Registration → RegistrationModel
to_registration_model r = record {
  id = r.id;
  participant_id = r.participant_id;
  race_id = r.race_id;
  como_te_enteraste = r.referral_source;
  modalidad = r.modalidad;
  talla_polera = shirt_size_text r.shirt_size;
  estado = status_text r.status;
  dorsal = r.dorsal;
  created_at = timestamptz r.created_at;
  confirmed_at = nullable timestamptz r.confirmed_at;
}

-- `domain.Gender(m.Gender)`
unfoldable pub gender_column : Text → Option Gender
gender_column t =
    if text_eq t (gender_text male)
    then some male
    else if text_eq t (gender_text female)
    then some female
    else if text_eq t (gender_text other)
    then some other
    else none

-- `domain.Status(m.Status)`
unfoldable pub status_column : Text → Option Status
status_column t =
    if text_eq t (status_text pending)
    then some pending
    else if text_eq t (status_text confirmed)
    then some confirmed
    else none

-- `domain.ShirtSize(m.ShirtSize)`
unfoldable pub shirt_size_column : Text → Option ShirtSize
shirt_size_column t =
    if is_empty t
    then some unsized
    else if text_eq t (codes "XS")
    then some xs
    else if text_eq t (codes "S")
    then some s
    else if text_eq t (codes "M")
    then some m
    else if text_eq t (codes "L")
    then some l
    else if text_eq t (codes "XL")
    then some xl
    else if text_eq t (codes "XXL")
    then some xxl
    else none

infixl 5 ◌>>=◌
abbrev ◌>>=◌ : {A B : Type 0} → Option A → (A → Option B) → Option B
none >>= f = none
some a >>= f = f a

unfoldable pub to_participant_domain : ParticipantModel → Option Participant
unfolding gender_column
to_participant_domain row = do
  gender ← gender_column row.genero
  some (record {
    id = row.id;
    first_names = row.nombres;
    last_names = row.apellidos;
    email = row.email;
    phone = row.telefono;
    document_id = row.documento_identidad;
    birth_date = midnight row.fecha_nacimiento;
    gender = gender;
    created_at = instant row.created_at;
  })

unfoldable pub to_registration_domain : RegistrationModel → Option Registration
unfolding status_column shirt_size_column
to_registration_domain row = do
  shirt_size ← shirt_size_column row.talla_polera
  status ← status_column row.estado
  some (record {
    id = row.id;
    participant_id = row.participant_id;
    race_id = row.race_id;
    referral_source = row.como_te_enteraste;
    modalidad = row.modalidad;
    shirt_size = shirt_size;
    status = status;
    dorsal = row.dorsal;
    created_at = instant row.created_at;
    confirmed_at = nullable instant row.confirmed_at;
  })

pub gender_column-gender_text : (g : Gender) → gender_column (gender_text g) ≡ some g
unfolding gender_column text_eq
gender_column-gender_text male = refl
gender_column-gender_text female = refl
gender_column-gender_text other = refl

pub status_column-status_text : (st : Status) → status_column (status_text st) ≡ some st
unfolding status_column text_eq
status_column-status_text pending = refl
status_column-status_text confirmed = refl

pub shirt_size_column-shirt_size_text :
    (size : ShirtSize) → shirt_size_column (shirt_size_text size) ≡ some size
unfolding shirt_size_column text_eq
shirt_size_column-shirt_size_text unsized = refl
shirt_size_column-shirt_size_text xs = refl
shirt_size_column-shirt_size_text s = refl
shirt_size_column-shirt_size_text m = refl
shirt_size_column-shirt_size_text l = refl
shirt_size_column-shirt_size_text xl = refl
shirt_size_column-shirt_size_text xxl = refl
