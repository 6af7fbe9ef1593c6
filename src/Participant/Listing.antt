-- ===== src/Participant/Listing.antt =====
-- The listing of one race's registrations: internal/participant/domain/report.go, ByRace of
-- internal/participant/adapters/postgres/registration_repository.go and of
-- internal/participant/service/service.go.
pub mod Order
pub mod Lines
pub mod Keys
pub mod Whole
use go_finish_line_api.Prelude.{
  ℕ, Bool, true, false, not, ◌&&◌, ◌||◌, Option, none, some, List, [], ◌∷◌, ◌++◌, map, select, ◌==◌,
  ℤ, ltb_ℤ, eq_ℤ,
}
use go_finish_line_api.Sort.{sort_by}
use go_finish_line_api.Text.{Text}
use go_finish_line_api.Civil.{Time, before}
use go_finish_line_api.Apperr.{wrap}
use go_finish_line_api.Participant.Values.{Gender, ShirtSize, Status}
use go_finish_line_api.Participant.Person.{Participant}
use go_finish_line_api.Participant.Registration.{Registration}
use go_finish_line_api.Store.{row, Sql, Action, on_err, exec}

pub record RegistrationDetail : Type 0 where
  pub registration_id : ℕ
  pub first_names : Text
  pub last_names : Text
  pub email : Text
  pub phone : Text
  pub gender : Gender
  pub modalidad : Text
  pub shirt_size : ShirtSize
  pub status : Status
  pub dorsal : Option ℤ
  pub created_at : Time
  pub confirmed_at : Option Time

abbrev pub detail : Registration → Participant → RegistrationDetail
detail r p = record {
  registration_id = r.id;
  first_names = p.first_names;
  last_names = p.last_names;
  email = p.email;
  phone = p.phone;
  gender = p.gender;
  modalidad = r.modalidad;
  shirt_size = r.shirt_size;
  status = r.status;
  dorsal = r.dorsal;
  created_at = r.created_at;
  confirmed_at = r.confirmed_at;
}

-- JOIN participants p ON p.id = r.participant_id: a line for each person that the row refers to
unfoldable pub join_people : List Participant → List Registration → List RegistrationDetail
join_people people [] = []
join_people people (r ∷ rows) =
    map (detail r) (select (λ p. p.id == r.participant_id) people) ++ join_people people rows

-- `r.dorsal ASC NULLS LAST, r.created_at ASC`
abbrev pub listed_before : RegistrationDetail → RegistrationDetail → Bool
listed_before a b = by_dorsal a.dorsal b.dorsal
  where
    by_dorsal : Option ℤ → Option ℤ → Bool
    by_dorsal (some d) (some e) = ltb_ℤ d e || eq_ℤ d e && before a.created_at b.created_at
    by_dorsal (some d) none = true
    by_dorsal none (some e) = false
    by_dorsal none none = before a.created_at b.created_at

unfoldable pub details_of : ℕ → Sql (List RegistrationDetail)
unfolding join_people sort_by
details_of race_id db = (
  row (
      sort_by listed_before
        (join_people db.participants (select (λ r. r.race_id == race_id) db.registrations))),
  db,
)

unfoldable pub by_race : ℕ → Action (List RegistrationDetail)
unfolding details_of
by_race race_id =
    on_err (wrap "listing registrations") (exec "selecting race report" (details_of race_id))
