-- ===== src/Participant/Service/Rejection.antt =====
-- What a failed registration leaves behind.
use go_finish_line_api.Prelude.{
  ℕ, ◌≡◌, refl, ap, Bool, false, not, List, [], ◌∷◌, select, any, ◌==◌, arith, ◌+◌, ◌⊎◌, inl, inr,
}
use go_finish_line_api.Text.{Text, Platform}
use go_finish_line_api.Apperr.{Err, Result, ok, err}
use go_finish_line_api.Race.Entity.{Race}
use go_finish_line_api.Race.Repository as Races
use go_finish_line_api.Race.Service as RaceService
use go_finish_line_api.Participant.Person.{Participant, new_participant}
use go_finish_line_api.Participant.Registration.{Registration, nil_id, validate}
use go_finish_line_api.Participant.Repository
use go_finish_line_api.Participant.Service.{
  RegisterInput, Completed, person_params, registration_params, accept, register, confirm,
  undo_failed, confirm_or_undo,
}
use go_finish_line_api.Participant.Service.Accept.{accept-world}
use go_finish_line_api.Store.{Db, World, call, this_interlude, first}

-- A reading statement leaves the tables as the other sessions left them.
first-db :
    {A B : Type 0} (table : Db → List A) (p : A → Bool) (read : A → B) (w : World)
    → (call (first table p read) w).1.db ≡ (this_interlude w.script).others w.db
unfolding call
first-db table p read w = ground arith

by_document_id-db :
    (slug : Text) (w : World)
    → (RaceService.by_document_id slug w).1.db ≡ (this_interlude w.script).others w.db
unfolding RaceService.by_document_id Races.by_document_id
by_document_id-db slug w = grind (arith, first-db)

-- A form that the domain rejects: the person is refused, or a good person's registration is, for
-- the source or the size that the form gives.
abbrev pub IsRejected : Platform → RegisterInput → Race → World → Err → Type 0
IsRejected pf input race w e =
    (made w ≡ err e)
    ⊎ ((person : Participant) × (made w ≡ ok person)
        × (validate pf (registration_params input nil_id race.id) ≡ err e))
  where
    made : World → Result Participant
    made w =
        new_participant pf (w.ids w.drawn) (w.clock w.ticks) (w.clock (w.ticks + 1))
          (person_params input)

accept-rejects :
    (pf : Platform) (input : RegisterInput) (race : Race) (w : World) (e : Err)
    → IsRejected pf input race w e
    → (accept pf input race w).0 ≡ err e
unfolding accept
accept-rejects pf input race w e (inl refused) = ground arith
accept-rejects pf input race w e (inr (person, made, refused)) = ground arith

-- A request whose form the domain rejects, be it for the person or for the registration, is answered
-- by the domain's error and has written nothing, no row of a person either: the tables are as the
-- other sessions left them before its only statement.
pub register_rejected :
    (pf : Platform) (input : RegisterInput) (w : World) (race : Race) (e : Err)
    → (RaceService.by_document_id input.race_document_id w).0 ≡ ok race
    → IsRejected pf input race (RaceService.by_document_id input.race_document_id w).1 e
    → ((register pf input w).0 ≡ err e)
      × ((register pf input w).1.db ≡ (this_interlude w.script).others w.db)
unfolding register
register_rejected pf input w race e found rejected =
    let met = (RaceService.by_document_id input.race_document_id w).1 in
    let refused = accept-rejects pf input race met e rejected in
    (
      ground arith,
      ground (
        arith,
        ap (λ (v : World). v.db) (accept-world pf input race met),
        by_document_id-db input.race_document_id w,
      ),
    )

select-none :
    (id : ℕ) (rows : List Registration)
    → any (λ r. r.id == id) (select (λ r. not (r.id == id)) rows) ≡ false
select-none id [] = refl
select-none id (r ∷ rows) = ground (arith, select-none id rows)

delete-clean :
    (id : ℕ) (w : World)
    → (this_interlude w.script).fails ≡ false
    → any (λ r. r.id == id) (Repository.delete id w).1.db.registrations ≡ false
unfolding Repository.delete Repository.delete_sql call
delete-clean id w runs =
    rw runs (select-none id ((this_interlude w.script).others w.db).registrations)

undo_failed-clean :
    (id : ℕ) (out : Result Completed × World) (e : Err)
    → (undo_failed id out).0 ≡ err e
    → (this_interlude out.1.script).fails ≡ false
    → (out.0 ≡ err e) × (any (λ r. r.id == id) (undo_failed id out).1.db.registrations ≡ false)
unfolding undo_failed
undo_failed-clean id (ok done, w) e h runs = cc
undo_failed-clean id (err e', w) e h runs = (h, delete-clean id w runs)

-- When the confirmation inside `Register` fails, its error is returned, and the row that was
-- created for it is gone from the tables, unless the deletion itself was lost.
pub confirm_or_undo-clean :
    (id : ℕ) (person : Participant) (race : Race) (w : World) (e : Err)
    → (confirm_or_undo id person race w).0 ≡ err e
    → (this_interlude (confirm id person race w).1.script).fails ≡ false
    → ((confirm id person race w).0 ≡ err e)
      × (any (λ r. r.id == id) (confirm_or_undo id person race w).1.db.registrations ≡ false)
unfolding confirm_or_undo
confirm_or_undo-clean id person race w e = undo_failed-clean id (confirm id person race w) e
