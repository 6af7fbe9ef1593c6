-- ===== src/Participant/Listing/Lines.antt =====
-- The lines of the join of registrations and people.
use go_finish_line_api.Prelude.{
  ℕ, suc, ◌≡◌, refl, sym, ap, ◌∙◌, Bool, true, false, some, List, [], ◌∷◌, ◌++◌, map, select, find,
  length, All, ◌==◌, arith, Bool-cases, inl, inr,
}
use go_finish_line_api.Participant.Person.{Participant}
use go_finish_line_api.Participant.Registration.{Registration}
use go_finish_line_api.Participant.Repository.{clashes}
use go_finish_line_api.Participant.Repository.Apart.{Apart}
use go_finish_line_api.Participant.Listing.{RegistrationDetail, detail, join_people}

-- The primary key of the people.
abbrev pub IsKeyed : List Participant → Type 0
IsKeyed [] = Unit {0}
IsKeyed (p ∷ people) = All (λ q. (q.id == p.id) ≡ false) people × IsKeyed people

absent :
    (id : ℕ) (p : Participant) (people : List Participant)
    → (p.id == id) ≡ true
    → All (λ q. (q.id == p.id) ≡ false) people
    → select (λ q. q.id == id) people ≡ []
absent id p [] same h = refl
absent id p (q ∷ people) same (h, hs) = ground (arith, absent id p people)

-- A key has one person.
pub select-keyed :
    (id : ℕ) (p : Participant) (people : List Participant)
    → IsKeyed people
    → find (λ q. q.id == id) people ≡ some p
    → select (λ q. q.id == id) people ≡ p ∷ []
select-keyed id p [] k found = absurd (ground arith)
select-keyed id p (q ∷ people) (apart, k) found = elim (Bool-cases (q.id == id)) [
  | inl hit ↦ ground (arith, hit, found, absent id q people hit apart)
  | inr miss ↦ ground (arith, miss, found, select-keyed id p people k)
]

abbrev pub of_id : ℕ → RegistrationDetail → Bool
of_id id d = d.registration_id == id

-- The lines of another registration.
others-first :
    (id : ℕ) (r : Registration) (people : List Participant) (rest : List RegistrationDetail)
    → (r.id == id) ≡ false
    → select (of_id id) (map (detail r) people ++ rest) ≡ select (of_id id) rest
others-first id r [] rest h = refl
others-first id r (p ∷ people) rest h = ground (arith, others-first id r people rest h)

abbrev pub in_race : ℕ → Registration → Bool
in_race race_id r = r.race_id == race_id

joined-none :
    (id race_id : ℕ) (people : List Participant) (rows : List Registration)
    → All (λ q. (q.id == id) ≡ false) rows
    → select (of_id id) (join_people people (select (in_race race_id) rows)) ≡ []
unfolding join_people
joined-none id race_id people [] h = refl
joined-none id race_id people (r ∷ rows) (h, hs) = elim (Bool-cases (in_race race_id r)) [
  | inl here ↦ rw here (
      others-first id r (select (λ p. p.id == r.participant_id) people)
        (join_people people (select (in_race race_id) rows)) h
      ∙ joined-none id race_id people rows hs)
  | inr there ↦ rw there (joined-none id race_id people rows hs)
]

apart-ids :
    (r : Registration) (rows : List Registration)
    → All (λ q. clashes r q ≡ false) rows
    → All (λ q. (q.id == r.id) ≡ false) rows
unfolding clashes
apart-ids r [] h = tt
apart-ids r (q ∷ rows) (h, hs) = (ground arith, apart-ids r rows hs)

own-first :
    (r : Registration) (p : Participant) (rest : List RegistrationDetail)
    → select (of_id r.id) rest ≡ []
    → select (of_id r.id) (detail r p ∷ rest) ≡ detail r p ∷ []
own-first r p rest none_left = ground arith

joined-own :
    (race_id : ℕ) (people : List Participant) (rows : List Registration) (r : Registration)
    (p : Participant)
    → All (λ q. clashes r q ≡ false) rows
    → (r.race_id == race_id) ≡ true
    → select (λ q. q.id == r.participant_id) people ≡ p ∷ []
    → select (of_id r.id) (join_people people (select (in_race race_id) (r ∷ rows)))
      ≡ detail r p ∷ []
unfolding join_people
joined-own race_id people rows r p apart here person =
    rw (here, person)
      (own-first r p (join_people people (select (in_race race_id) rows))
        (joined-none r.id race_id people rows (apart-ids r rows apart)))

-- A registration of the race has one line, its own.
pub joined-one :
    (race_id : ℕ) (people : List Participant) (rows : List Registration) (r : Registration)
    (p : Participant)
    → Apart rows
    → find (λ q. q.id == r.id) rows ≡ some r
    → (r.race_id == race_id) ≡ true
    → select (λ q. q.id == r.participant_id) people ≡ p ∷ []
    → select (of_id r.id) (join_people people (select (in_race race_id) rows)) ≡ detail r p ∷ []
unfolding join_people
joined-one race_id people [] r p h found here person = absurd (ground arith)
joined-one race_id people (q ∷ rows) r p (apart, h) found here person =
    elim (Bool-cases (q.id == r.id)) [
      | inl hit ↦
          rw (same_row hit)
            (joined-own race_id people rows r p (rw (sym (same_row hit)) apart) here person)
      | inr miss ↦ elim (Bool-cases (in_race race_id q)) [
        | inl also ↦ rw also (
            others-first r.id q (select (λ x. x.id == q.participant_id) people)
              (join_people people (select (in_race race_id) rows)) miss
            ∙ joined-one race_id people rows r p h (ground (arith, found, miss)) here person)
        | inr there ↦
            rw there
              (joined-one race_id people rows r p h (ground (arith, found, miss)) here person)
      ]
    ]
  where
    same_row : (q.id == r.id) ≡ true → q ≡ r
    same_row hit = ground (arith, hit, found)

-- As many lines as registrations, where each refers to one person.
pub length-join_people :
    (race_id : ℕ) (people : List Participant) (rows : List Registration)
    → All (λ r. (p : Participant) × (select (λ q. q.id == r.participant_id) people ≡ p ∷ [])) rows
    → length (join_people people (select (in_race race_id) rows))
      ≡ length (select (in_race race_id) rows)
unfolding join_people
length-join_people race_id people [] h = refl
length-join_people race_id people (r ∷ rows) ((p, person), hs) =
    elim (Bool-cases (in_race race_id r)) [
      | inl here ↦ rw (here, person) (ap (λ n. suc n) (length-join_people race_id people rows hs))
      | inr there ↦ rw there (length-join_people race_id people rows hs)
    ]
