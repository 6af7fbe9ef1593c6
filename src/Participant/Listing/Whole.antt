-- ===== src/Participant/Listing/Whole.antt =====
-- The listing of a race shows its registrations, each once, in their order.
use go_finish_line_api.Prelude.{
  ℕ, ◌≡◌, refl, ◌∙◌, Bool, true, false, some, none, List, [], ◌∷◌, select, find, any, length, All,
  ◌==◌, arith, Option-cases, inl, inr, All-find,
}
use go_finish_line_api.Race.Entity.{Race}
use go_finish_line_api.Participant.Person.{Participant}
use go_finish_line_api.Participant.Registration.{Registration}
use go_finish_line_api.Participant.Repository.Sound.{IsSound, Refers}
use go_finish_line_api.Participant.Listing.{
  RegistrationDetail, detail, join_people, listed_before, details_of,
}
use go_finish_line_api.Participant.Listing.Order.{InOrder, sort-InOrder, length-sort_by, sort-one}
use go_finish_line_api.Participant.Listing.Lines.{
  IsKeyed, select-keyed, of_id, in_race, joined-one, length-join_people,
}
use go_finish_line_api.Store.{Db, Answer, row}

abbrev pub details : Answer (List RegistrationDetail) → List RegistrationDetail
details (row ds) = ds
details _ = []

-- The columns of a line: what it takes from the registration, and what from the person.
pub record IsLineOf (r : Registration) (p : Participant) (d : RegistrationDetail) : Type 0 where
  pub registration_id : d.registration_id ≡ r.id
  pub first_names : d.first_names ≡ p.first_names
  pub last_names : d.last_names ≡ p.last_names
  pub email : d.email ≡ p.email
  pub phone : d.phone ≡ p.phone
  pub gender : d.gender ≡ p.gender
  pub modalidad : d.modalidad ≡ r.modalidad
  pub shirt_size : d.shirt_size ≡ r.shirt_size
  pub status : d.status ≡ r.status
  pub dorsal : d.dorsal ≡ r.dorsal
  pub created_at : d.created_at ≡ r.created_at
  pub confirmed_at : d.confirmed_at ≡ r.confirmed_at

detail-IsLineOf : (r : Registration) (p : Participant) → IsLineOf r p (detail r p)
detail-IsLineOf r p = record {
  registration_id = refl;
  first_names = refl;
  last_names = refl;
  email = refl;
  phone = refl;
  gender = refl;
  modalidad = refl;
  shirt_size = refl;
  status = refl;
  dorsal = refl;
  created_at = refl;
  confirmed_at = refl;
}

find-none : {A : Type 0} (p : A → Bool) (xs : List A) → find p xs ≡ none → any p xs ≡ false
find-none p [] h = refl
find-none p (x ∷ xs) h = ground (arith, find-none p xs)

-- The person of a row is one person of the table.
person_of :
    (people : List Participant) (races : List Race) (r : Registration)
    → IsKeyed people
    → Refers people races r
    → (p : Participant) × ((find (λ q. q.id == r.participant_id) people ≡ some p)
        × (select (λ q. q.id == r.participant_id) people ≡ p ∷ []))
person_of people races r keyed (known, _) =
    elim (Option-cases (find (λ q. q.id == r.participant_id) people)) [
      | inl nobody ↦
          absurd (ground (arith, find-none (λ q. q.id == r.participant_id) people nobody, known))
      | inr (p, found) ↦ (p, (found, select-keyed r.participant_id p people keyed found))
    ]

people_of :
    (people : List Participant) (races : List Race) (rows : List Registration)
    → IsKeyed people
    → All (Refers people races) rows
    → All (λ r. (p : Participant) × (select (λ q. q.id == r.participant_id) people ≡ p ∷ [])) rows
people_of people races [] keyed h = tt
people_of people races (r ∷ rows) keyed (h, hs) =
    let (p, (_, one)) = person_of people races r keyed h in
    ((p, one), people_of people races rows keyed hs)

-- In sound tables, where no two people have one id, a registration of the race has exactly one line
-- in the listing, with its columns and those of the person it refers to. The listing has as many
-- lines as the race has registrations, and its order is by the dorsal, the lines without one last,
-- and by the time of creation among these.
pub details_of_complete :
    (race_id : ℕ) (db : Db) (r : Registration)
    → IsSound db
    → IsKeyed db.participants
    → find (λ q. q.id == r.id) db.registrations ≡ some r
    → (r.race_id == race_id) ≡ true
    → ((p : Participant) × (d : RegistrationDetail) × (find
            (λ q. q.id == r.participant_id)
            db.participants
          ≡ some p)
        × (select (of_id r.id) (details (details_of race_id db).0) ≡ d ∷ [])
        × IsLineOf r p d)
      × (length (details (details_of race_id db).0)
          ≡ length (select (λ q. q.race_id == race_id) db.registrations))
      × InOrder (details (details_of race_id db).0)
unfolding details_of
details_of_complete race_id db r s keyed found here =
    let refers = All-find _ (λ q. q.id == r.id) db.registrations r s.refers found in
    let (p, (known, one)) = person_of db.participants db.races r keyed refers in
    let lines = join_people db.participants (select (in_race race_id) db.registrations) in
    (
      (
        p,
        detail r p,
        known,
        sort-one listed_before (of_id r.id) (detail r p) lines
            (joined-one race_id db.participants db.registrations r p s.apart found here one),
        detail-IsLineOf r p,
      ),
      length-sort_by listed_before lines
          ∙ length-join_people race_id db.participants db.registrations
              (people_of db.participants db.races db.registrations keyed s.refers),
      sort-InOrder lines,
    )
