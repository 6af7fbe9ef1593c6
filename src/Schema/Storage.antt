-- ===== src/Schema/Storage.antt =====
-- What the database holds and what the domain says agree, for every statement of the program.
use go_finish_line_api.Prelude.{
  ℕ, ◌≡◌, refl, ap, Bool, true, Option, some, List, map, All, All-find, find, ◌==◌, Option-cases,
  inl, inr,
}
use go_finish_line_api.Text.{Text, text_eq, Platform}
use go_finish_line_api.Civil.{Time}
use go_finish_line_api.Race.Entity.{Race}
use go_finish_line_api.Race.Repository as RaceRows
use go_finish_line_api.User.Entity.{User}
use go_finish_line_api.User.Repository as UserRows
use go_finish_line_api.Auth.Token.{RefreshToken}
use go_finish_line_api.Auth.Repository as TokenRows
use go_finish_line_api.Participant.Person.{Participant}
use go_finish_line_api.Participant.Registration.{Registration}
use go_finish_line_api.Participant.Repository as People
use go_finish_line_api.Schema.{
  timestamptz, nullable, to_race_model, to_race_domain, to_user_model, to_user_domain,
  to_refresh_token_model, to_refresh_token_domain, RefreshTokenModel,
}
use go_finish_line_api.Schema.Participants.{
  to_participant_model, to_participant_domain, to_registration_model, to_registration_domain,
}
use go_finish_line_api.Schema.Columns.{
  FitsRace, FitsPerson, FitsRegistration, FitsUser, FitsToken, race_back, user_back, token_back,
  person_back, registration_back,
}
use go_finish_line_api.Schema.Statements
use go_finish_line_api.Schema.Refinement.{
  to_rows, Implements, upsert_person-Implements, insert_registration-Implements,
  delete_registration-Implements, update_registration-Implements, upsert_race-Implements,
  delete_race-Implements, insert_user-Implements, update_user_password-Implements,
  insert_token-Implements, rotate_token-Implements, revoke_tokens-Implements,
}
use go_finish_line_api.Schema.Maps.{find-map-none, find-map-some}
use go_finish_line_api.Store.{Db}

-- The values of the tables that their columns can hold.
pub record FitsColumns (db : Db) : Type 0 where
  pub participants : All FitsPerson db.participants
  pub registrations : All FitsRegistration db.registrations
  pub races : All FitsRace db.races
  pub users : All FitsUser db.users
  pub refresh_tokens : All FitsToken db.refresh_tokens

module _ {A B : Type 0} (write : A → B) (p : B → Bool) (Fits : A → Type 0) (xs : List A) where
  find-back :
      (read : B → A)
      → ((a : A) → Fits a → read (write a) ≡ a)
      → All Fits xs
      → nullable read (find p (map write xs)) ≡ find (λ a. p (write a)) xs
  find-back read back fits = elim (Option-cases (find (λ a. p (write a)) xs)) [
    | inl missing ↦ rw (missing, find-map-none write p xs missing) refl
    | inr (a, found) ↦
        rw (found, find-map-some write p xs a found)
          (ap (λ b. some b) (back a (All-find Fits (λ b. p (write b)) xs a fits found)))
  ]

  find-back_if :
      (read : B → Option A)
      → ((a : A) → Fits a → read (write a) ≡ some a)
      → All Fits xs
      → Statements.converted read (find p (map write xs)) ≡ find (λ a. p (write a)) xs
  find-back_if read back fits = elim (Option-cases (find (λ a. p (write a)) xs)) [
    | inl missing ↦ rw (missing, find-map-none write p xs missing) refl
    | inr (a, found) ↦
        rw (found, find-map-some write p xs a found)
          (back a (All-find Fits (λ b. p (write b)) xs a fits found))
  ]

-- Every statement that writes, run on the rows with their columns, answers as the statement on the
-- domain's values does, and leaves the rows of the tables that this one leaves: people, registrations,
-- races, users and refresh tokens, with their unique indexes and foreign keys. The dorsal that a
-- registration is written with is one that an integer column holds. Where the columns can hold the
-- values of the tables, a person, a registration, a race, a user and a token are read back from the
-- rows as they were written.
pub to_rows-Implements :
    (pf : Platform) (db : Db) (r : Registration)
    → Statements.fits_dorsal r.dorsal ≡ true
    → FitsColumns db
    → ((p : Participant)
        → Implements
            (Statements.upsert_person pf (to_participant_model p))
            (People.upsert_sql pf p)
            db)
      × Implements
          (Statements.insert_registration (to_registration_model r))
          (People.insert_sql r)
          db
      × Implements
          (Statements.update_registration (to_registration_model r))
          (People.update_sql r)
          db
      × ((id : ℕ) → Implements (Statements.delete_registration id) (People.delete_sql id) db)
      × ((r : Race)
          → Implements (Statements.upsert_race (to_race_model r)) (RaceRows.upsert_sql r) db)
      × ((slug : Text) → Implements (Statements.delete_race slug) (RaceRows.delete_sql slug) db)
      × ((u : User)
          → Implements (Statements.insert_user pf (to_user_model u)) (UserRows.insert_sql pf u) db)
      × ((id : ℕ) (hash : Text)
          → Implements
              (Statements.update_user_password id hash)
              (UserRows.update_password_sql id hash)
              db)
      × ((t : RefreshToken)
          → Implements
              (Statements.insert_token (to_refresh_token_model t))
              (TokenRows.insert_sql t)
              db)
      × ((id : ℕ) (now : Time)
          → Implements
              (Statements.rotate_token id (timestamptz now))
              (TokenRows.rotate_sql id now)
              db)
      × ((p : RefreshTokenModel → Bool) (now : Time)
          → Implements
              (Statements.revoke_tokens p (timestamptz now))
              (TokenRows.revoke_sql (λ t. p (to_refresh_token_model t)) now)
              db)
      × ((id : ℕ)
          → Statements.read_registration id (to_rows db) ≡ find (λ r. r.id == id) db.registrations)
      × ((id : ℕ) → Statements.read_person id (to_rows db) ≡ find (λ p. p.id == id) db.participants)
      × ((id : ℕ) → Statements.read_race id (to_rows db) ≡ find (λ q. q.id == id) db.races)
      × ((id : ℕ) → Statements.read_user id (to_rows db) ≡ find (λ u. u.id == id) db.users)
      × ((hash : Text)
          → Statements.read_token hash (to_rows db)
            ≡ find (λ t. text_eq t.token_hash hash) db.refresh_tokens)
unfolding Statements.read_registration Statements.read_person Statements.read_race
    Statements.read_user Statements.read_token
to_rows-Implements pf db r small fits = (
  λ p. upsert_person-Implements pf p db,
  insert_registration-Implements r db small,
  update_registration-Implements r db small,
  λ id. delete_registration-Implements id db,
  λ race. upsert_race-Implements race db,
  λ slug. delete_race-Implements slug db,
  λ u. insert_user-Implements pf u db,
  λ id hash. update_user_password-Implements id hash db,
  λ t. insert_token-Implements t db,
  λ id now. rotate_token-Implements id now db,
  λ p now. revoke_tokens-Implements p now db,
  λ id.
      find-back_if to_registration_model (λ q. q.id == id) FitsRegistration db.registrations
        to_registration_domain registration_back fits.registrations,
  λ id.
      find-back_if to_participant_model (λ p. p.id == id) FitsPerson db.participants
        to_participant_domain person_back fits.participants,
  λ id.
      find-back to_race_model (λ q. q.id == id) FitsRace db.races to_race_domain race_back
        fits.races,
  λ id.
      find-back to_user_model (λ u. u.id == id) FitsUser db.users to_user_domain user_back
        fits.users,
  λ hash.
      find-back to_refresh_token_model (λ t. text_eq t.token_hash hash) FitsToken db.refresh_tokens
        to_refresh_token_domain token_back fits.refresh_tokens,
)
