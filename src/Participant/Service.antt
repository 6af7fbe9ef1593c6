-- ===== src/Participant/Service.antt =====
-- internal/participant/service/service.go: registration and confirmation. `RaceFinder` is the race
-- service, as cmd/api/main.go wires it. The outbox takes every call of the notifier; the program
-- only logs what it answers. Ids and times that a constructor draws are drawn before it.
pub mod Attempts
pub mod Frame
pub mod Accept
pub mod Safety
pub mod Outcome
pub mod Rejection
pub mod Alone
use go_finish_line_api.Prelude.{ℕ, zero, suc, true, false, none, List, [], ◌∷◌, ◌++◌, ℤ}
use go_finish_line_api.Text.{Text, Platform}
use go_finish_line_api.Civil.{Time}
use go_finish_line_api.Apperr.{
  Err, app, wrap, AppError, race_full, is_dorsal_taken, Result, ok, err,
}
use go_finish_line_api.Race.Entity.{Race}
use go_finish_line_api.Race.Service
use go_finish_line_api.Participant.Person.{Participant, ParticipantParams, new_participant}
use go_finish_line_api.Participant.Registration
use go_finish_line_api.Participant.Registration.{
  Registration, RegistrationParams, nil_id, validate, new_registration,
}
use go_finish_line_api.Participant.Repository
use go_finish_line_api.Store.{
  World, Action, Notice, ◌>>=◌, ◌>>◌, pure, throw, lift, on_err, time_now, new_uuid,
}

pub record RegisterInput : Type 0 where
  pub race_document_id : Text
  pub first_names : Text
  pub last_names : Text
  pub email : Text
  pub phone : Text
  pub document_id : Text
  pub birth_date : Time
  pub gender : Text
  pub referral_source : Text
  pub modalidad : Text
  pub shirt_size : Text

pub record Completed : Type 0 where
  pub participant : Participant
  pub registration : Registration
  pub race : Race

abbrev pub max_confirm_attempts : ℕ
max_confirm_attempts = 5

-- `s.notifier.SendConfirmation`
abbrev pub notify : Notice → World → World
notify n w = record w { outbox = w.outbox ++ n ∷ [] }

abbrev pub completed : Participant → Registration → Race → Completed
completed person reg race = record { participant = person; registration = reg; race = race }

abbrev pub notice : Participant → Registration → Race → Notice
notice person reg race = record { person = person; registration = reg; race = race }

-- The `switch` on what SaveConfirmation returned; `again` is `continue`.
unfoldable pub settle :
    Participant
    → Race
    → Registration
    → (again : Action Completed) → Result (Unit {0})
    → Action Completed
settle person race reg again (ok _) w =
    (ok (completed person reg race), notify (notice person reg race) w)
settle person race reg again (err e) w = elim (is_dorsal_taken e) [
  | true ↦ again w
  | false ↦ (err (wrap "confirming registration" e), w)
]

unfoldable pub after_save :
    Participant → Race → Registration → (again : Action Completed) → Action Completed
unfolding settle
after_save person race reg again w =
    let (saved, w') = Repository.save_confirmation reg w in settle person race reg again saved w'

-- The body of the loop of `confirm`, from the domain's decision on and whole.
unfoldable pub try_dorsal :
    Participant → Race → (again : Action Completed) → Registration → ℤ → Action Completed
unfolding after_save
try_dorsal person race again reg next = do
  at ← time_now
  confirmed ← lift (Registration.confirm next race.capacity at reg)
  after_save person race confirmed again

unfoldable pub attempt :
    (id : ℕ) → Participant → Race → (again : Action Completed) → Action Completed
unfolding try_dorsal
attempt id person race again = do
  reg ← on_err (wrap "getting registration") (Repository.by_id id)
  next ← on_err (wrap "getting next dorsal") (Repository.next_dorsal race.id)
  try_dorsal person race again reg next

-- The loop with `n` rounds left.
unfoldable pub confirm_loop : ℕ → (id : ℕ) → Participant → Race → Action Completed
unfolding attempt
confirm_loop zero id person race = throw (app (AppError.participant race_full))
confirm_loop (suc n) id person race = attempt id person race (confirm_loop n id person race)

-- `(*Service).confirm`
unfoldable pub confirm : (id : ℕ) → Participant → Race → Action Completed
unfolding confirm_loop
confirm = confirm_loop max_confirm_attempts

abbrev pub person_params : RegisterInput → ParticipantParams
person_params input = record {
  first_names = input.first_names;
  last_names = input.last_names;
  email = input.email;
  phone = input.phone;
  document_id = input.document_id;
  birth_date = input.birth_date;
  gender = input.gender;
}

abbrev pub registration_params : RegisterInput → (participant_id race_id : ℕ) → RegistrationParams
registration_params input participant_id race_id = record {
  participant_id = participant_id;
  race_id = race_id;
  referral_source = input.referral_source;
  modalidad = input.modalidad;
  shirt_size = input.shirt_size;
}

-- The end of `Register`: a failed confirmation takes the new row back, and its error is returned
-- whatever becomes of the deletion.
unfoldable pub undo_failed : (id : ℕ) → Result Completed × World → Result Completed × World
undo_failed id (ok done, w) = (ok done, w)
undo_failed id (err e, w) = let (_, w') = Repository.delete id w in (err e, w')

unfoldable pub confirm_or_undo : (id : ℕ) → Participant → Race → Action Completed
unfolding confirm undo_failed
confirm_or_undo id person race w = undo_failed id (confirm id person race w)

-- `Register` up to the first write.
unfoldable pub accept : Platform → RegisterInput → Race → Action Participant
accept pf input race = do
  now ← time_now
  id ← new_uuid
  created ← time_now
  person ← lift (new_participant pf id now created (person_params input))
  lift (validate pf (registration_params input nil_id race.id))
  pure person

-- From the saved person on.
unfoldable pub store : Platform → RegisterInput → Race → Participant → Action Completed
unfolding confirm_or_undo
store pf input race saved = do
  now ← time_now
  id ← new_uuid
  reg ← lift (new_registration pf id now (registration_params input saved.id race.id))
  on_err (wrap "creating registration") (Repository.create reg)
  confirm_or_undo reg.id saved race

unfoldable pub enrol : Platform → RegisterInput → Race → Participant → Action Completed
unfolding store
enrol pf input race person = do
  saved ← on_err (wrap "upserting participant") (Repository.upsert_by_email pf person)
  store pf input race saved

unfoldable pub register : Platform → RegisterInput → Action Completed
unfolding accept enrol
register pf input = do
  race ← on_err (wrap "finding race") (Service.by_document_id input.race_document_id)
  person ← accept pf input race
  enrol pf input race person

-- `Confirm`
unfoldable pub confirm_by_id : (id : ℕ) → Action Completed
unfolding confirm
confirm_by_id id = do
  reg ← on_err (wrap "getting registration") (Repository.by_id id)
  race ← on_err (wrap "finding race") (Service.by_id reg.race_id)
  person ← on_err (wrap "getting participant") (Repository.participant_by_id reg.participant_id)
  confirm id person race
