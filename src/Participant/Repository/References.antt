-- ===== src/Participant/Repository/References.antt =====
-- The foreign keys of registrations under the statements on persons and races.
use go_finish_line_api.Prelude.{
  ℕ, ◌≡◌, refl, Bool, true, false, not, ◌&&◌, List, [], ◌∷◌, ◌++◌, map, any, select, ◌==◌, All,
  if◌then◌else◌, inl, inr, Bool-cases, arith,
}
use go_finish_line_api.Text.{Text, Platform, text_eq, citext_eq}
use go_finish_line_api.Race.Entity.{Race}
use go_finish_line_api.Race.Repository as Races
use go_finish_line_api.Participant.Person.{Participant}
use go_finish_line_api.Participant.Registration.{Registration}
use go_finish_line_api.Participant.Repository.{upsert_sql, refresh}
use go_finish_line_api.Participant.Repository.Sound.{IsSound, Refers}
use go_finish_line_api.Store.{Db}

any-append {ℓ} :
    {A : Type ℓ} (p : A → Bool) (xs ys : List A) → any p xs ≡ true → any p (xs ++ ys) ≡ true
any-append p [] ys h = cc
any-append p (x ∷ xs) ys h = ground (arith, any-append p xs ys)

any-map {ℓ} :
    {A : Type ℓ} (p : A → Bool) (f : A → A) (same : (a : A) → p (f a) ≡ p a) (xs : List A)
    → any p (map f xs) ≡ any p xs
any-map p f same [] = refl
any-map p f same (x ∷ xs) = rw (same x, any-map p f same xs)

-- What exists for one set of tables exists for another.
All-Refers :
    (people people' : List Participant) (races races' : List Race)
    (persons : (id : ℕ)
      → any (λ p. p.id == id) people ≡ true
      → any (λ p. p.id == id) people' ≡ true)
    (rows : List Registration)
    (places : All
      (λ r.
        any (λ race. race.id == r.race_id) races ≡ true
        → any (λ race. race.id == r.race_id) races' ≡ true)
      rows)
    → All (Refers people races) rows
    → All (Refers people' races') rows
All-Refers people people' races races' persons [] places h = tt
All-Refers people people' races races' persons (r ∷ rows) (here, there) ((a, b), hs) = (
  (persons r.participant_id a, here b),
  All-Refers people people' races races' persons rows there hs,
)

All-always {ℓ} : {A : Type ℓ} (P : A → Type 0) (h : (a : A) → P a) (xs : List A) → All P xs
All-always P h [] = tt
All-always P h (x ∷ xs) = (h x, All-always P h xs)

-- The upsert of a person keeps the invariant of the registrations.
pub upsert_sql-IsSound :
    (pf : Platform) (p : Participant) (db : Db) → IsSound db → IsSound (upsert_sql pf p db).1
unfolding upsert_sql
upsert_sql-IsSound pf p db s =
    elim (Bool-cases (any (λ old. citext_eq pf old.email p.email) db.participants)) [
      | inl known ↦ rw known (
          keeping
            (map (λ old. if◌then◌else◌ (citext_eq pf old.email p.email) (refresh p old) old)
              db.participants)
            (λ id h.
              rw
                (any-map (λ q. q.id == id)
                  (λ old. if◌then◌else◌ (citext_eq pf old.email p.email) (refresh p old) old)
                  (λ q. same_id id q) db.participants)
                h))
      | inr new ↦ rw new (elim (Bool-cases (any (λ old. old.id == p.id) db.participants)) [
        | inl taken ↦ rw taken s
        | inr fresh ↦ rw fresh (
            keeping (db.participants ++ p ∷ [])
              (λ id h. any-append (λ q. q.id == id) db.participants (p ∷ []) h))
      ])
    ]
  where
    keeping :
        (people : List Participant)
        → ((id : ℕ)
            → any (λ q. q.id == id) db.participants ≡ true
            → any (λ q. q.id == id) people ≡ true)
        → IsSound (record db { participants = people })
    keeping people persons = record {
      apart = s.apart;
      rows = s.rows;
      refers =
          All-Refers db.participants people db.races db.races persons db.registrations
            (All-always
              (λ r.
                any (λ race. race.id == r.race_id) db.races ≡ true
                → any (λ race. race.id == r.race_id) db.races ≡ true)
              (λ r h. h) db.registrations)
            s.refers;
    }

    same_id :
        (id : ℕ) (q : Participant)
        → ((if◌then◌else◌ (citext_eq pf q.email p.email) (refresh p q) q).id == id) ≡ (q.id == id)
    same_id id q = ground arith

-- The columns of a race do not touch the registrations.
upsert_columns-IsSound :
    (new : Race) (db : Db) → IsSound db → IsSound (Races.upsert_columns new db).1
unfolding Races.upsert_columns
upsert_columns-IsSound new db s =
    elim (Bool-cases (any (λ old. text_eq old.document_id new.document_id) db.races)) [
      | inl known ↦ rw known (
          keeping (map renewed db.races)
            (λ id h. rw (any-map (λ r. r.id == id) renewed (λ r. same_id id r) db.races) h))
      | inr unknown ↦ rw unknown (elim (Bool-cases (any (λ old. old.id == new.id) db.races)) [
        | inl taken ↦ rw taken s
        | inr fresh ↦ rw fresh (
            keeping (db.races ++ new ∷ [])
              (λ id h. any-append (λ r. r.id == id) db.races (new ∷ []) h))
      ])
    ]
  where
    renewed : Race → Race
    renewed old = if text_eq old.document_id new.document_id then Races.refresh new old else old

    same_id : (id : ℕ) (r : Race) → ((renewed r).id == id) ≡ (r.id == id)
    same_id id r = ground arith

    keeping :
        (races : List Race)
        → ((id : ℕ) → any (λ r. r.id == id) db.races ≡ true → any (λ r. r.id == id) races ≡ true)
        → IsSound (record db { races = races })
    keeping races places = record {
      apart = s.apart;
      rows = s.rows;
      refers =
          All-Refers db.participants db.participants db.races races (λ id h. h) db.registrations
            (All-always
              (λ r.
                any (λ race. race.id == r.race_id) db.races ≡ true
                → any (λ race. race.id == r.race_id) races ≡ true)
              (λ r h. places r.race_id h) db.registrations)
            s.refers;
    }

-- The upsert of a race keeps the invariant of the registrations.
pub upsert_race-IsSound : (new : Race) (db : Db) → IsSound db → IsSound (Races.upsert_sql new db).1
unfolding Races.upsert_sql
upsert_race-IsSound new db s = elim (Bool-cases (Races.fits_integer new.capacity)) [
  | inl fits ↦ rw fits (upsert_columns-IsSound (Races.stored new) db s)
  | inr large ↦ rw large s
]

-- A race survives the deletion of another document id's race, and of its own while it is in use.
survives :
    (document_id : Text) (rows : List Registration) (race_id : ℕ) (races : List Race)
    → any (λ g. g.race_id == race_id) rows ≡ true
    → any (λ r. text_eq r.document_id document_id && any (λ g. g.race_id == r.id) rows) races
      ≡ false
    → any (λ r. r.id == race_id) races ≡ true
    → any (λ r. r.id == race_id) (select (λ r. not (text_eq r.document_id document_id)) races)
      ≡ true
survives document_id rows race_id [] used free h = cc
survives document_id rows race_id (r ∷ races) used free h =
    let rest = survives document_id rows race_id races used in
    elim (Bool-cases (r.id == race_id)) [
      | inl here ↦ ground (arith, same_use here)
      | inr there ↦ ground (arith, rest)
    ]
  where
    same_use : (r.id == race_id) ≡ true → any (λ g. g.race_id == r.id) rows ≡ true
    same_use e = let q : r.id ≡ race_id = ground arith in rw q used

-- Every row uses its own race.
All-used :
    (all_rows rows : List Registration)
    → All (λ g. any (λ q. q.race_id == g.race_id) all_rows ≡ true) rows
    → (g : Registration) → All (λ h. any (λ q. q.race_id == h.race_id) (g ∷ all_rows) ≡ true) rows
All-used all_rows [] h g = tt
All-used all_rows (r ∷ rows) (h, hs) g = (ground arith, All-used all_rows rows hs g)

All-used_self :
    (rows : List Registration) → All (λ g. any (λ q. q.race_id == g.race_id) rows ≡ true) rows
All-used_self [] = tt
All-used_self (r ∷ rows) = (ground arith, All-used rows rows (All-used_self rows) r)

All-survives :
    (document_id : Text) (all_rows rows : List Registration) (races : List Race)
    → any (λ r. text_eq r.document_id document_id && any (λ g. g.race_id == r.id) all_rows) races
      ≡ false
    → All (λ g. any (λ q. q.race_id == g.race_id) all_rows ≡ true) rows
    → All
        (λ g.
          any (λ r. r.id == g.race_id) races ≡ true
          → any
              (λ r. r.id == g.race_id)
              (select (λ r. not (text_eq r.document_id document_id)) races)
            ≡ true)
        rows
All-survives document_id all_rows [] races free h = tt
All-survives document_id all_rows (g ∷ rows) races free (h, hs) = (
  survives document_id all_rows g.race_id races h free,
  All-survives document_id all_rows rows races free hs,
)

-- The deletion of a race keeps the invariant: it is refused while a registration refers to it.
pub delete_race-IsSound :
    (document_id : Text) (db : Db) → IsSound db → IsSound (Races.delete_sql document_id db).1
unfolding Races.delete_sql
delete_race-IsSound document_id db s =
    elim (Bool-cases (
      any (λ r. text_eq r.document_id document_id && any (λ g. g.race_id == r.id) db.registrations)
        db.races)) [
          | inl used ↦ rw used s
          | inr free ↦ rw free (record {
            apart = s.apart;
            rows = s.rows;
            refers =
                All-Refers db.participants db.participants db.races _ (λ id h. h) db.registrations
                  (All-survives document_id db.registrations db.registrations db.races free
                    (All-used_self db.registrations))
                  s.refers;
          })
        ]
