-- ===== src/Schema/Columns.antt =====
-- What is read back from a row is what was written, where the columns can hold it: a date has no time
-- of day, and an instant is a whole number of microseconds.
use go_finish_line_api.Prelude.{ℕ, ◌≡◌, refl, ap, ◌*◌, ◌/◌, ◌%◌, Option, none, some, arith}
use go_finish_line_api.Civil.{Time, midnight}
use go_finish_line_api.Race.Entity.{Race}
use go_finish_line_api.User.Entity.{User}
use go_finish_line_api.Auth.Token.{RefreshToken}
use go_finish_line_api.Participant.Person.{Participant}
use go_finish_line_api.Participant.Registration.{Registration}
use go_finish_line_api.Schema.{
  timestamptz, instant, nullable, to_race_model, to_race_domain, to_user_model, to_user_domain,
  to_refresh_token_model, to_refresh_token_domain,
}
use go_finish_line_api.Schema.Participants.{
  to_participant_model, to_participant_domain, to_registration_model, to_registration_domain,
  gender_column-gender_text, status_column-status_text, shirt_size_column-shirt_size_text,
}

abbrev pub IsDay : Time → Type 0
IsDay t = t.nanos ≡ 0

abbrev pub IsWhole : Time → Type 0
IsWhole t = t.nanos % 1000 ≡ 0

abbrev pub IsWholeIf : Option Time → Type 0
IsWholeIf none = Unit {0}
IsWholeIf (some t) = IsWhole t

abbrev pub FitsRace : Race → Type 0
FitsRace r = IsDay r.date × IsWhole r.created_at × IsWhole r.updated_at

abbrev pub FitsPerson : Participant → Type 0
FitsPerson p = IsDay p.birth_date × IsWhole p.created_at

abbrev pub FitsRegistration : Registration → Type 0
FitsRegistration r = IsWhole r.created_at × IsWholeIf r.confirmed_at

abbrev pub FitsUser : User → Type 0
FitsUser u = IsWhole u.created_at

abbrev pub FitsToken : RefreshToken → Type 0
FitsToken t =
    IsWhole t.expires_at × IsWholeIf t.rotated_at × IsWholeIf t.revoked_at × IsWhole t.created_at

whole : (n : ℕ) → n % 1000 ≡ 0 → (n / 1000) * 1000 ≡ n
whole n h = omega (arith, h)

midnight-date : (t : Time) → IsDay t → midnight t.date ≡ t
midnight-date t h = ap (λ n. record { date = t.date; nanos = n }) (omega (arith, h))

instant-timestamptz : (t : Time) → IsWhole t → instant (timestamptz t) ≡ t
instant-timestamptz t h = ap (λ n. record { date = t.date; nanos = n }) (whole t.nanos h)

nullable-instant : (t : Option Time) → IsWholeIf t → nullable instant (nullable timestamptz t) ≡ t
nullable-instant none h = refl
nullable-instant (some t) h = ap (λ u. some u) (instant-timestamptz t h)

pub race_back : (r : Race) → FitsRace r → to_race_domain (to_race_model r) ≡ r
race_back r (day, created, updated) =
    rw
      (
        midnight-date r.date day,
        instant-timestamptz r.created_at created,
        instant-timestamptz r.updated_at updated,
      )
      refl

pub user_back : (u : User) → FitsUser u → to_user_domain (to_user_model u) ≡ u
user_back u created = rw (instant-timestamptz u.created_at created) refl

pub token_back :
    (t : RefreshToken) → FitsToken t → to_refresh_token_domain (to_refresh_token_model t) ≡ t
token_back t (expires, rotated, revoked, created) =
    rw
      (
        instant-timestamptz t.expires_at expires,
        nullable-instant t.rotated_at rotated,
        nullable-instant t.revoked_at revoked,
        instant-timestamptz t.created_at created,
      )
      refl

pub person_back :
    (p : Participant) → FitsPerson p → to_participant_domain (to_participant_model p) ≡ some p
unfolding to_participant_domain
person_back p (day, created) =
    rw
      (
        gender_column-gender_text p.gender,
        midnight-date p.birth_date day,
        instant-timestamptz p.created_at created,
      )
      refl

pub registration_back :
    (r : Registration)
    → FitsRegistration r
    → to_registration_domain (to_registration_model r) ≡ some r
unfolding to_registration_domain
registration_back r (created, confirmed) =
    rw
      (
        shirt_size_column-shirt_size_text r.shirt_size,
        status_column-status_text r.status,
        instant-timestamptz r.created_at created,
        nullable-instant r.confirmed_at confirmed,
      )
      refl
