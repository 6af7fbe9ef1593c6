-- ===== src/Apperr.antt =====
-- internal/apperr and the modules' domain/errors.go: categorised domain errors, the sentinels
-- of each module, and Go's chains of wrapped errors. Sentinels are compared by identity, as
-- `errors.Is` compares pointers: two of one text (the e-mail ones) are two values.
use go_finish_line_api.Prelude.{
  String, Bool, true, false, Option, none, some, ◌≡◌, refl, ◌⊎◌, inl, inr,
}

pub data Kind : Type 0 where
  validation unauthorized conflict not_found : Kind

-- internal/participant/domain/errors.go
pub data ParticipantError : Type 0 where
  participant_required race_required first_names_required last_names_required : ParticipantError
  email_invalid phone_invalid document_id_invalid : ParticipantError
  birth_date_in_future birth_date_unrealistic gender_invalid shirt_size_invalid : ParticipantError
  referral_required dorsal_invalid : ParticipantError
  already_registered race_full already_confirmed not_found : ParticipantError

-- internal/race/domain/errors.go
pub data RaceError : Type 0 where
  document_id_required name_required capacity_invalid not_found : RaceError

-- internal/user/domain/errors.go
pub data UserError : Type 0 where
  name_required email_invalid password_too_short password_too_long : UserError
  password_hash_required incorrect_password email_taken not_found : UserError

-- internal/auth/domain/errors.go, the client-facing ones
pub data AuthError : Type 0 where
  invalid_credentials invalid_token token_reuse : AuthError

-- internal/report/domain/errors.go
pub data ReportError : Type 0 where
  age_range_invalid : ReportError

-- A value of `*apperr.Error`.
pub data AppError : Type 0 where
  participant : ParticipantError → AppError
  race : RaceError → AppError
  user : UserError → AppError
  auth : AuthError → AppError
  report : ReportError → AppError

abbrev pub participant_kind : ParticipantError → Kind
participant_kind already_registered = conflict
participant_kind race_full = conflict
participant_kind already_confirmed = conflict
participant_kind ParticipantError.not_found = Kind.not_found
participant_kind _ = validation

abbrev pub race_kind : RaceError → Kind
race_kind RaceError.not_found = Kind.not_found
race_kind _ = validation

abbrev pub user_kind : UserError → Kind
user_kind incorrect_password = unauthorized
user_kind email_taken = conflict
user_kind UserError.not_found = Kind.not_found
user_kind _ = validation

-- `Error.Kind`
abbrev pub kind : AppError → Kind
kind (participant e) = participant_kind e
kind (race e) = race_kind e
kind (user e) = user_kind e
kind (auth e) = unauthorized
kind (report e) = validation

abbrev pub participant_msg : ParticipantError → String
participant_msg participant_required = "participant is required"
participant_msg race_required = "race is required"
participant_msg first_names_required = "first names are required"
participant_msg last_names_required = "last names are required"
participant_msg ParticipantError.email_invalid = "email is invalid"
participant_msg phone_invalid = "phone number is invalid"
participant_msg document_id_invalid = "document id is invalid"
participant_msg birth_date_in_future = "birth date cannot be in the future"
participant_msg birth_date_unrealistic = "birth date is not realistic"
participant_msg gender_invalid = "gender must be M, F or X"
participant_msg shirt_size_invalid = "shirt size must be XS, S, M, L, XL or XXL"
participant_msg referral_required = "referral source is required"
participant_msg dorsal_invalid = "dorsal must be greater than zero"
participant_msg already_registered = "already registered for this race"
participant_msg race_full = "race capacity is full"
participant_msg already_confirmed = "registration is already confirmed"
participant_msg ParticipantError.not_found = "registration not found"

abbrev pub race_msg : RaceError → String
race_msg document_id_required = "race external id is required"
race_msg RaceError.name_required = "race name is required"
race_msg capacity_invalid = "capacity must be greater than zero"
race_msg RaceError.not_found = "race not found"

abbrev pub user_msg : UserError → String
user_msg UserError.name_required = "name is required"
user_msg UserError.email_invalid = "email is invalid"
user_msg password_too_short = "password must be at least 8 characters"
user_msg password_too_long = "password must be at most 72 characters"
user_msg password_hash_required = "password hash is required"
user_msg incorrect_password = "current password is incorrect"
user_msg email_taken = "email is already registered"
user_msg UserError.not_found = "user not found"

abbrev pub auth_msg : AuthError → String
auth_msg invalid_credentials = "invalid credentials"
auth_msg invalid_token = "invalid or expired token"
auth_msg token_reuse = "token reuse detected"

-- `Error.Error`
abbrev pub msg : AppError → String
msg (participant e) = participant_msg e
msg (race e) = race_msg e
msg (user e) = user_msg e
msg (auth e) = auth_msg e
msg (report e) = "age range is invalid"

-- Plain errors: the two internal signals, and failures below the program (database, hashing,
-- random source, token library), whose text the program never reads.
pub data Signal : Type 0 where
  dorsal_taken refresh_token_not_found failure : Signal

-- A chain: `fmt.Errorf("…: %w", err)` wraps.
pub data Err : Type 0 where
  app : AppError → Err
  signal : Signal → Err
  wrap : String → Err → Err

-- `errors.As` with a target of `*apperr.Error`
unfoldable pub as_app : Err → Option AppError
as_app (app e) = some e
as_app (signal s) = none
as_app (wrap context e) = as_app e

unfoldable pub kind_of : Err → Option Kind
unfolding as_app
kind_of e = elim (as_app e) [ none ↦ none | some a ↦ some (kind a) ]

-- What stands at the end of a chain; `errors.Is` compares each node, and only the end can be a
-- sentinel.
unfoldable pub root : Err → Err
root (app e) = app e
root (signal s) = signal s
root (wrap context e) = root e

-- The sentinels that the program asks for with `errors.Is`.
abbrev is_signal_root : Signal → Err → Bool
is_signal_root dorsal_taken (signal dorsal_taken) = true
is_signal_root refresh_token_not_found (signal refresh_token_not_found) = true
is_signal_root _ _ = false

unfoldable pub is_dorsal_taken : Err → Bool
unfolding root
is_dorsal_taken e = is_signal_root dorsal_taken (root e)

unfoldable pub is_refresh_token_not_found : Err → Bool
unfolding root
is_refresh_token_not_found e = is_signal_root refresh_token_not_found (root e)

abbrev is_user_root : Err → Bool
is_user_root (app (user UserError.not_found)) = true
is_user_root _ = false

abbrev is_taken_root : Err → Bool
is_taken_root (app (user email_taken)) = true
is_taken_root _ = false

unfoldable pub is_user_not_found : Err → Bool
unfolding root
is_user_not_found e = is_user_root (root e)

unfoldable pub is_email_taken : Err → Bool
unfolding root
is_email_taken e = is_taken_root (root e)

-- A call's result, `(value, error)`.
pub data Result {ℓ} (A : Type ℓ) : Type ℓ where
  err : Err → Result A
  ok : A → Result A

infixl 5 ◌>>◌ ◌>>=◌
abbrev pub ◌>>◌ {ℓ} : {A : Type ℓ} → Result (Unit {0}) → Result A → Result A
err e >> after = err e
ok _ >> after = after

abbrev pub ◌>>=◌ {κ ℓ} : {A : Type κ} {B : Type ℓ} → Result A → (A → Result B) → Result B
err e >>= after = err e
ok a >>= after = after a

-- To split on what a call returned.
pub Result-cases {ℓ} :
    {A : Type ℓ} (r : Result A) → ((a : A) × (r ≡ ok a)) ⊎ ((e : Err) × (r ≡ err e))
Result-cases (ok a) = inl (a, refl)
Result-cases (err e) = inr (e, refl)
