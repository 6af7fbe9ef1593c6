-- ===== src/Schema.antt =====
-- The schema of the database: the rows of internal/*/adapters/postgres/model.go, with the types that
-- their tags give the columns, and the conversions between them and the domain's values.
pub mod Columns
pub mod Participants
pub mod Statements
pub mod Maps
pub mod Refinement
pub mod Storage
pub mod Migrations
use go_finish_line_api.Prelude.{ℕ, ◌*◌, ◌/◌, Option, none, some, ℤ}
use go_finish_line_api.Text.{Text, codes}
use go_finish_line_api.Civil.{Date, Time, midnight}
use go_finish_line_api.Race.Entity.{Race}
use go_finish_line_api.User.Entity.{User}
use go_finish_line_api.Auth.Token.{RefreshToken}

-- The tables, by what `TableName` answers for each row type.
pub data Table : Type 0 where
  users refresh_tokens races participants registrations : Table

abbrev pub table_name : Table → Text
table_name users = codes "users"
table_name refresh_tokens = codes "refresh_tokens"
table_name races = codes "races"
table_name participants = codes "participants"
table_name registrations = codes "registrations"

-- A value of a column of type timestamptz, which counts microseconds: what is below is cut off.
pub record Timestamp : Type 0 where
  pub day : Date
  pub micros : ℕ

abbrev pub timestamptz : Time → Timestamp
timestamptz t = record { day = t.date; micros = t.nanos / 1000 }

abbrev pub instant : Timestamp → Time
instant column = record { date = column.day; nanos = column.micros * 1000 }

-- A column that may be NULL
abbrev pub nullable : {A B : Type 0} → (A → B) → Option A → Option B
nullable f none = none
nullable f (some a) = some (f a)

pub record RaceModel : Type 0 where
  pub id : ℕ
  pub document_id : Text
  pub nombre : Text
  pub fecha : Date
  pub capacidad : ℤ
  pub created_at : Timestamp
  pub updated_at : Timestamp

abbrev pub to_race_model : Race → RaceModel
to_race_model r = record {
  id = r.id;
  document_id = r.document_id;
  nombre = r.name;
  fecha = r.date.date;
  capacidad = r.capacity;
  created_at = timestamptz r.created_at;
  updated_at = timestamptz r.updated_at;
}

abbrev pub to_race_domain : RaceModel → Race
to_race_domain m = record {
  id = m.id;
  document_id = m.document_id;
  name = m.nombre;
  date = midnight m.fecha;
  capacity = m.capacidad;
  created_at = instant m.created_at;
  updated_at = instant m.updated_at;
}

pub record UserModel : Type 0 where
  pub id : ℕ
  pub nombre : Text
  pub email : Text
  pub password_hash : Text
  pub created_at : Timestamp

abbrev pub to_user_model : User → UserModel
to_user_model u = record {
  id = u.id;
  nombre = u.name;
  email = u.email;
  password_hash = u.password_hash;
  created_at = timestamptz u.created_at;
}

abbrev pub to_user_domain : UserModel → User
to_user_domain m = record {
  id = m.id;
  name = m.nombre;
  email = m.email;
  password_hash = m.password_hash;
  created_at = instant m.created_at;
}

pub record RefreshTokenModel : Type 0 where
  pub id : ℕ
  pub user_id : ℕ
  pub family_id : ℕ
  pub token_hash : Text
  pub expires_at : Timestamp
  pub rotated_at : Option Timestamp
  pub revoked_at : Option Timestamp
  pub created_at : Timestamp

abbrev pub to_refresh_token_model : RefreshToken → RefreshTokenModel
to_refresh_token_model t = record {
  id = t.id;
  user_id = t.user_id;
  family_id = t.family_id;
  token_hash = t.token_hash;
  expires_at = timestamptz t.expires_at;
  rotated_at = nullable timestamptz t.rotated_at;
  revoked_at = nullable timestamptz t.revoked_at;
  created_at = timestamptz t.created_at;
}

abbrev pub to_refresh_token_domain : RefreshTokenModel → RefreshToken
to_refresh_token_domain m = record {
  id = m.id;
  user_id = m.user_id;
  family_id = m.family_id;
  token_hash = m.token_hash;
  expires_at = instant m.expires_at;
  rotated_at = nullable instant m.rotated_at;
  revoked_at = nullable instant m.revoked_at;
  created_at = instant m.created_at;
}
