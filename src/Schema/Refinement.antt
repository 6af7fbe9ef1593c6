-- ===== src/Schema/Refinement.antt =====
-- The statements on the domain's values are the statements on the rows, seen through the
-- conversions: what a statement answers, and what it leaves in the tables.
use go_finish_line_api.Prelude.{
  ℕ, true, ◌≡◌, refl, ap, Bool, not, ◌&&◌, ◌||◌, List, [], ◌∷◌, map, any, ◌==◌, Bool-cases, inl,
  inr, arith, if◌then◌else◌,
}
use go_finish_line_api.Text.{Text, text_eq, citext_eq, Platform}
use go_finish_line_api.Civil.{Time}
use go_finish_line_api.Race.Entity.{Race}
use go_finish_line_api.Race.Repository as RaceRows
use go_finish_line_api.User.Entity.{User}
use go_finish_line_api.User.Repository as UserRows
use go_finish_line_api.Auth.Token.{RefreshToken}
use go_finish_line_api.Auth.Repository as TokenRows
use go_finish_line_api.Participant.Person.{Participant}
use go_finish_line_api.Participant.Registration.{Registration}
use go_finish_line_api.Participant.Repository as People
use go_finish_line_api.Schema.Maps.{any-map_by, any-map, map-append, map-map, select-map}
use go_finish_line_api.Schema.{
  timestamptz, to_race_model, to_user_model, to_refresh_token_model, RefreshTokenModel,
}
use go_finish_line_api.Schema.Participants.{to_participant_model, to_registration_model}
use go_finish_line_api.Schema.Statements
use go_finish_line_api.Schema.Statements.{Rows, Write}
use go_finish_line_api.Store.{Answer, Db, Sql}

abbrev pub to_rows : Db → Rows
to_rows db = record {
  participants = map to_participant_model db.participants;
  registrations = map to_registration_model db.registrations;
  races = map to_race_model db.races;
  users = map to_user_model db.users;
  refresh_tokens = map to_refresh_token_model db.refresh_tokens;
}

abbrev answered : Answer (Unit {0}) × Db → Answer (Unit {0}) × Rows
answered out = (out.0, to_rows out.1)

-- The write on the rows does what the statement does.
abbrev pub Implements : Write → Sql (Unit {0}) → Db → Type 0
Implements write stmt db = write (to_rows db) ≡ answered (stmt db)

-- Two tests that agree, with branches that do.
through_if :
    {c b : Bool} {x y : Answer (Unit {0}) × Rows} (u v : Answer (Unit {0}) × Db)
    → c ≡ b
    → x ≡ answered u
    → y ≡ answered v
    → (if c then x else y) ≡ answered (if b then u else v)
through_if {c} {b} {x} {y} u v same first second = elim (Bool-cases b) [
  | inl holds ↦ rw (same, holds) first
  | inr fails ↦ rw (same, fails) second
]

-- A guard that lets the statement pass.
through_guard :
    {c : Bool} {y : Answer (Unit {0}) × Rows} (x : Answer (Unit {0}) × Rows)
    (v : Answer (Unit {0}) × Db)
    → c ≡ true
    → y ≡ answered v
    → (if not c then x else y) ≡ answered v
through_guard x v passes rest = rw passes rest

pub upsert_person-Implements :
    (pf : Platform) (p : Participant) (db : Db)
    → Implements (Statements.upsert_person pf (to_participant_model p)) (People.upsert_sql pf p) db
unfolding Statements.upsert_person People.upsert_sql
upsert_person-Implements pf p db =
    let m = to_participant_model p in
    through_if _ _
      (any-map to_participant_model (λ old. citext_eq pf old.email p.email) db.participants)
      (rw
        (map-map to_participant_model (Statements.upsert_person_row pf m)
          (λ old. if citext_eq pf old.email p.email then People.refresh p old else old)
          (λ old. ground arith) db.participants)
        refl)
      (through_if _ _ (any-map to_participant_model (λ old. old.id == p.id) db.participants) refl
        (rw (map-append to_participant_model db.participants (p ∷ [])) refl))

refers-map :
    (r : Registration) (db : Db)
    → (any (λ p. p.id == r.participant_id) (map to_participant_model db.participants)
        && any (λ race. race.id == r.race_id) (map to_race_model db.races))
      ≡ (any (λ p. p.id == r.participant_id) db.participants
          && any (λ race. race.id == r.race_id) db.races)
refers-map r db =
    rw
      (
        any-map to_participant_model (λ p. p.id == r.participant_id) db.participants,
        any-map to_race_model (λ race. race.id == r.race_id) db.races,
      )
      refl

pub insert_registration-Implements :
    (r : Registration) (db : Db)
    → Statements.fits_dorsal r.dorsal ≡ true
    → Implements (Statements.insert_registration (to_registration_model r)) (People.insert_sql r) db
unfolding Statements.insert_registration People.insert_sql People.clashes
insert_registration-Implements r db fits = through_guard _ _ fits (
    through_if _ _
      (any-map to_registration_model (Statements.collides (to_registration_model r))
        db.registrations)
      refl
      (through_if _ _ (refers-map r db)
        (rw (map-append to_registration_model db.registrations (r ∷ [])) refl) refl))

pub delete_registration-Implements :
    (id : ℕ) (db : Db) → Implements (Statements.delete_registration id) (People.delete_sql id) db
unfolding Statements.delete_registration People.delete_sql
delete_registration-Implements id db =
    rw (select-map to_registration_model (λ r. not (r.id == id)) db.registrations) refl

taken_by_other-map :
    (r : Registration) (rows : List Registration)
    → any
        (Statements.taken_by_other (to_registration_model r) (map to_registration_model rows))
        (map to_registration_model rows)
      ≡ People.dorsal_in_use r.id r.dorsal rows
unfolding People.dorsal_in_use
taken_by_other-map r rows =
    let m = to_registration_model r in
    any-map_by to_registration_model (Statements.taken_by_other m (map to_registration_model rows))
      (λ q.
        q.id == r.id
        && any
            (λ p.
              not (p.id == r.id) && p.race_id == q.race_id && People.same_dorsal p.dorsal r.dorsal)
            rows)
      (λ q.
        ap (λ held. q.id == r.id && held)
          (any-map to_registration_model
            (λ p.
              not (p.id == r.id) && p.race_id == q.race_id && People.same_dorsal p.dorsal r.dorsal)
            rows))
      rows

pub update_registration-Implements :
    (r : Registration) (db : Db)
    → Statements.fits_dorsal r.dorsal ≡ true
    → Implements (Statements.update_registration (to_registration_model r)) (People.update_sql r) db
unfolding Statements.update_registration People.update_sql
update_registration-Implements r db fits = through_guard _ _ fits (
    through_if _ _ (taken_by_other-map r db.registrations) refl (
      rw
        (map-map to_registration_model (Statements.confirm_columns (to_registration_model r))
          (People.confirm_row r.id r.status r.dorsal r.confirmed_at) (λ q. ground arith)
          db.registrations)
        refl))

pub upsert_race-Implements :
    (r : Race) (db : Db)
    → Implements (Statements.upsert_race (to_race_model r)) (RaceRows.upsert_sql r) db
unfolding Statements.upsert_race RaceRows.upsert_sql RaceRows.upsert_columns
upsert_race-Implements r db = elim (Bool-cases (RaceRows.fits_integer r.capacity)) [
  | inr large ↦ rw large refl
  | inl fits ↦ rw fits (
      through_if _ _ (any-map to_race_model (λ old. text_eq old.document_id r.document_id) db.races)
        (rw
          (map-map to_race_model (Statements.upsert_race_row (to_race_model r))
            (λ old.
              if text_eq old.document_id r.document_id
              then RaceRows.refresh (RaceRows.stored r) old
              else old)
            (λ old. ground arith) db.races)
          refl)
        (through_if _ _ (any-map to_race_model (λ old. old.id == r.id) db.races) refl
          (rw (map-append to_race_model db.races (RaceRows.stored r ∷ [])) refl)))
]

held-map :
    (slug : Text) (db : Db)
    → any
        (λ r.
          text_eq r.document_id slug
          && any (λ g. g.race_id == r.id) (map to_registration_model db.registrations))
        (map to_race_model db.races)
      ≡ any
          (λ r. text_eq r.document_id slug && any (λ g. g.race_id == r.id) db.registrations)
          db.races
held-map slug db =
    any-map_by to_race_model
      (λ r.
        text_eq r.document_id slug
        && any (λ g. g.race_id == r.id) (map to_registration_model db.registrations))
      (λ r. text_eq r.document_id slug && any (λ g. g.race_id == r.id) db.registrations)
      (λ r.
        ap (λ held. text_eq r.document_id slug && held)
          (any-map to_registration_model (λ g. g.race_id == r.id) db.registrations))
      db.races

pub delete_race-Implements :
    (slug : Text) (db : Db) → Implements (Statements.delete_race slug) (RaceRows.delete_sql slug) db
unfolding Statements.delete_race RaceRows.delete_sql
delete_race-Implements slug db =
    through_if _ _ (held-map slug db) refl
      (rw (select-map to_race_model (λ r. not (text_eq r.document_id slug)) db.races) refl)

pub insert_user-Implements :
    (pf : Platform) (u : User) (db : Db)
    → Implements (Statements.insert_user pf (to_user_model u)) (UserRows.insert_sql pf u) db
unfolding Statements.insert_user UserRows.insert_sql
insert_user-Implements pf u db =
    through_if _ _
      (any-map to_user_model (λ old. old.id == u.id || citext_eq pf old.email u.email) db.users)
      refl (rw (map-append to_user_model db.users (u ∷ [])) refl)

pub update_user_password-Implements :
    (id : ℕ) (hash : Text) (db : Db)
    → Implements (Statements.update_user_password id hash) (UserRows.update_password_sql id hash) db
unfolding Statements.update_user_password UserRows.update_password_sql
update_user_password-Implements id hash db =
    through_if _ _ (any-map to_user_model (λ u. u.id == id) db.users)
      (rw
        (map-map to_user_model (Statements.password_column id hash) (UserRows.set_password id hash)
          (λ u. ground arith) db.users)
        refl)
      refl

pub insert_token-Implements :
    (t : RefreshToken) (db : Db)
    → Implements (Statements.insert_token (to_refresh_token_model t)) (TokenRows.insert_sql t) db
unfolding Statements.insert_token TokenRows.insert_sql
insert_token-Implements t db =
    through_if _ _
      (any-map to_refresh_token_model (λ old. old.id == t.id || text_eq old.token_hash t.token_hash)
        db.refresh_tokens)
      refl
      (through_if _ _ (any-map to_user_model (λ u. u.id == t.user_id) db.users)
        (rw (map-append to_refresh_token_model db.refresh_tokens (t ∷ [])) refl) refl)

pub rotate_token-Implements :
    (id : ℕ) (now : Time) (db : Db)
    → Implements (Statements.rotate_token id (timestamptz now)) (TokenRows.rotate_sql id now) db
unfolding Statements.rotate_token TokenRows.rotate_sql
rotate_token-Implements id now db =
    rw
      (map-map to_refresh_token_model (Statements.rotated_column id (timestamptz now))
        (TokenRows.rotate_row id now) (λ t. ground arith) db.refresh_tokens)
      refl

pub revoke_tokens-Implements :
    (p : RefreshTokenModel → Bool) (now : Time) (db : Db)
    → Implements
        (Statements.revoke_tokens p (timestamptz now))
        (TokenRows.revoke_sql (λ t. p (to_refresh_token_model t)) now)
        db
unfolding Statements.revoke_tokens TokenRows.revoke_sql
revoke_tokens-Implements p now db =
    rw
      (map-map to_refresh_token_model (Statements.revoked_column p (timestamptz now))
        (TokenRows.revoke_row (λ t. p (to_refresh_token_model t)) now) (λ t. ground arith)
        db.refresh_tokens)
      refl
