-- ===== src/Participant/Registration.antt =====
-- internal/participant/domain/registration.go: a participation in a race, its construction and
-- its confirmation. `id`, `now` and `at` are drawn by the caller.
pub mod Laws
use go_finish_line_api.Prelude.{
  ℕ, Bool, Option, none, some, ◌==◌, ℤ, pos, leb_ℤ, ltb_ℤ, if◌then◌else◌,
}
use go_finish_line_api.Text.{Text, is_empty, trim_space, Platform}
use go_finish_line_api.Civil.{Time}
use go_finish_line_api.Apperr.{
  Result, ok, participant_required, race_required, referral_required, already_confirmed,
  dorsal_invalid, race_full, ◌>>=◌, ◌>>◌,
}
use go_finish_line_api.Participant.Values.{
  fail, Status, pending, confirmed, is_confirmed, ShirtSize, parse_shirt_size,
}
use go_finish_line_api.Participant.Person.{required}

pub record Registration : Type 0 where
  pub id : ℕ
  pub participant_id : ℕ
  pub race_id : ℕ
  pub referral_source : Text
  pub modalidad : Text
  pub shirt_size : ShirtSize
  pub status : Status
  pub dorsal : Option ℤ
  pub created_at : Time
  pub confirmed_at : Option Time

pub record RegistrationParams : Type 0 where
  pub participant_id : ℕ
  pub race_id : ℕ
  pub referral_source : Text
  pub modalidad : Text
  pub shirt_size : Text

-- uuid.Nil
abbrev pub nil_id : ℕ
nil_id = 0

unfoldable pub validate : Platform → RegistrationParams → Result (Unit {0})
validate pf p = do
  required (trim_space p.referral_source) referral_required
  size ← parse_shirt_size pf p.shirt_size
  ok tt

unfoldable pub new_registration :
    Platform → (id : ℕ) (now : Time) → RegistrationParams → Result Registration
unfolding validate
new_registration pf id now p =
    if p.participant_id == nil_id
    then fail participant_required
    else if p.race_id == nil_id
    then fail race_required
    else do
      validate pf p
      shirt_size ← parse_shirt_size pf p.shirt_size
      ok (record {
        id = id;
        participant_id = p.participant_id;
        race_id = p.race_id;
        referral_source = trim_space p.referral_source;
        modalidad = trim_space p.modalidad;
        shirt_size = shirt_size;
        status = pending;
        dorsal = none;
        created_at = now;
        confirmed_at = none;
      })

-- `(*Registration).Confirm`: the registration as it is written to, or the refusal, which leaves
-- it alone.
unfoldable pub confirm : (dorsal capacity : ℤ) (at : Time) → Registration → Result Registration
confirm dorsal capacity at r =
    if is_confirmed r.status
    then fail already_confirmed
    else if leb_ℤ dorsal (pos 0)
    then fail dorsal_invalid
    else if ltb_ℤ capacity dorsal
    then fail race_full
    else ok (record r { status = confirmed; dorsal = some dorsal; confirmed_at = some at })
