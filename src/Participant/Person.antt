-- ===== src/Participant/Person.antt =====
-- internal/participant/domain/participant.go: a person, and its validated construction. The
-- drawn id and the two readings of the clock are arguments.
use go_finish_line_api.Prelude.{ℕ, if◌then◌else◌}
use go_finish_line_api.Text.{Text, is_empty, trim_space, Platform}
use go_finish_line_api.Civil.{Time}
use go_finish_line_api.Apperr.{
  Result, ok, first_names_required, last_names_required, ParticipantError, ◌>>=◌, ◌>>◌,
}
use go_finish_line_api.Participant.Values.{
  fail, Gender, parse_gender, normalize_email, normalize_phone, normalize_document_id,
  validate_birth_date,
}

pub record Participant : Type 0 where
  pub id : ℕ
  pub first_names : Text
  pub last_names : Text
  pub email : Text
  pub phone : Text
  pub document_id : Text
  pub birth_date : Time
  pub gender : Gender
  pub created_at : Time

pub record ParticipantParams : Type 0 where
  pub first_names : Text
  pub last_names : Text
  pub email : Text
  pub phone : Text
  pub document_id : Text
  pub birth_date : Time
  pub gender : Text

-- `if s == "" { return nil, e }`
abbrev pub required : Text → ParticipantError → Result (Unit {0})
required s e = if is_empty s then fail e else ok tt

unfoldable pub new_participant :
    Platform → (id : ℕ) (now created : Time) → ParticipantParams → Result Participant
new_participant pf id now created p = do
  let first_names = trim_space p.first_names
  required first_names first_names_required
  let last_names = trim_space p.last_names
  required last_names last_names_required
  email ← normalize_email pf p.email
  phone ← normalize_phone p.phone
  document_id ← normalize_document_id p.document_id
  validate_birth_date p.birth_date now
  gender ← parse_gender pf p.gender
  ok (record {
    id = id;
    first_names = first_names;
    last_names = last_names;
    email = email;
    phone = phone;
    document_id = document_id;
    birth_date = p.birth_date;
    gender = gender;
    created_at = created;
  })
