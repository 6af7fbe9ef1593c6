-- ===== src/Guarantee/Registrations.antt =====
-- Registration keeps what its statements keep.
use go_finish_line_api.Prelude.{none, ℕ, ◌≡◌}
use go_finish_line_api.Participant.Service.Accept.{accept-world}
use go_finish_line_api.Civil.{Time}
use go_finish_line_api.Text.{Platform, citext_eq}
use go_finish_line_api.Apperr.{ok, wrap}
use go_finish_line_api.Race.Entity.{Race}
use go_finish_line_api.Race.Service as RaceService
use go_finish_line_api.Participant.Person.{Participant}
use go_finish_line_api.Participant.Registration.{Registration, RegistrationParams, new_registration}
use go_finish_line_api.Participant.Registration.Laws.{new_registration-pending}
use go_finish_line_api.Participant.Repository as Rows
use go_finish_line_api.Participant.Repository.Sound.{IsRow, waiting}
use go_finish_line_api.Participant.Listing.{by_race, details_of}
use go_finish_line_api.Participant.Service.{
  RegisterInput, Completed, confirm, confirm_or_undo, accept, store, enrol, register,
  registration_params, confirm_by_id,
}
use go_finish_line_api.Guarantee.Races
use go_finish_line_api.Guarantee.Confirmations.{
  by_id-Keeps, participant_by_id-Keeps, confirm-Keeps, confirm_or_undo-Keeps,
}
use go_finish_line_api.Guarantee.{
  Guarantee, IsKept, Enters, Keeps, call-Kept, first-Kept, Kept-after, Keeps-bind, Keeps-on_err,
}
use go_finish_line_api.Store.{Action, ◌>>=◌, first, on_err, exec, time_now, new_uuid}

new_registration-IsRow :
    (pf : Platform) (id : ℕ) (now : Time) (p : RegistrationParams) (r : Registration)
    → new_registration pf id now p ≡ ok r
    → IsRow r
new_registration-IsRow pf id now p r h =
    let facts = new_registration-pending pf id now p r h in waiting facts.0 facts.1 facts.2

-- The end of `store`: the row is entered, and confirmed or taken back.
abbrev pub entry : Registration → Race → Participant → Action Completed
entry reg race saved = on_err (wrap "creating registration") (Rows.create reg) >>= λ _.
    confirm_or_undo reg.id saved race

-- `Register` behind the lookup of the race, where that keeps it.
module _ (G : Guarantee) (k : IsKept G) (race : Race)
    (enters : (reg : Registration) (saved : Participant)
      → reg.dorsal ≡ none
      → IsRow reg
      → Keeps G (entry reg race saved)) where
  upsert_by_email-Keeps : (pf : Platform) (p : Participant) → Keeps G (Rows.upsert_by_email pf p)
  unfolding Rows.upsert_by_email
  upsert_by_email-Keeps pf p =
      let same = λ (old : Participant). citext_eq pf old.email p.email in
      let read = first (λ db. db.participants) same (λ (old : Participant). old) in
      Keeps-bind G k (exec "upserting participant" (Rows.upsert_sql pf p))
        (λ _. exec "reloading upserted participant" read)
        (λ w s. call-Kept G k (Rows.upsert_sql pf p) (k.person pf p) w s)
        (λ _ w s. call-Kept G k read (first-Kept G k (λ db. db.participants) same _) w s)

  accept-Keeps : (pf : Platform) (input : RegisterInput) → Keeps G (accept pf input race)
  accept-Keeps pf input w s =
      rw (accept-world pf input race w) (record { kept = k.same w.db; trusts = s })

  -- What follows the upsert of the person.
  store-Keeps :
      (pf : Platform) (input : RegisterInput) (saved : Participant)
      → Keeps G (store pf input race saved)
  unfolding store
  store-Keeps pf input saved w s =
      Kept-after G k (λ reg. entry reg race saved)
        (new_registration pf (w.ids w.drawn) (w.clock w.ticks)
          (registration_params input saved.id race.id))
        w (new_uuid (time_now w).1).1 (record { kept = k.same w.db; trusts = s })
        λ reg made.
          enters reg saved (new_registration-pending pf _ _ _ reg made).1
            (new_registration-IsRow pf _ _ _ reg made)

  enrol-Keeps :
      (pf : Platform) (input : RegisterInput) (person : Participant)
      → Keeps G (enrol pf input race person)
  unfolding enrol
  enrol-Keeps pf input person =
      Keeps-bind G k (on_err (wrap "upserting participant") (Rows.upsert_by_email pf person))
        (λ saved. store pf input race saved)
        (Keeps-on_err G k _ (Rows.upsert_by_email pf person) (upsert_by_email-Keeps pf person))
        λ saved. store-Keeps pf input saved

  pub enter-Keeps :
      (pf : Platform) (input : RegisterInput)
      → Keeps G (accept pf input race >>= λ person. enrol pf input race person)
  enter-Keeps pf input =
      Keeps-bind G k (accept pf input race) (λ person. enrol pf input race person)
        (accept-Keeps pf input) λ person. enrol-Keeps pf input person

-- The lookup, and what follows it for any race.
module _ (G : Guarantee) (k : IsKept G)
    (enters : (reg : Registration) (race : Race) (saved : Participant)
      → reg.dorsal ≡ none
      → IsRow reg
      → Keeps G (entry reg race saved)) where
  pub register-Keeps_of : (pf : Platform) (input : RegisterInput) → Keeps G (register pf input)
  unfolding register
  register-Keeps_of pf input =
      Keeps-bind G k
        (on_err (wrap "finding race") (RaceService.by_document_id input.race_document_id))
        (λ race. accept pf input race >>= λ person. enrol pf input race person)
        (Keeps-on_err G k _ _ (Races.by_document_id-Keeps G k input.race_document_id))
        λ race. enter-Keeps G k race (λ reg saved. enters reg race saved) pf input

-- Where the statements keep it whatever the registration.
module _ (G : Guarantee) (k : IsKept G) (e : Enters G) where
  create-Keeps : (r : Registration) → IsRow r → Keeps G (Rows.create r)
  unfolding Rows.create
  create-Keeps r good w s = call-Kept G k (Rows.insert_sql r) (λ db. e.entered r db good) w s

  pub entry-Keeps :
      (reg : Registration) (race : Race) (saved : Participant)
      → reg.dorsal ≡ none
      → IsRow reg
      → Keeps G (entry reg race saved)
  entry-Keeps reg race saved blank good =
      Keeps-bind G k (on_err (wrap "creating registration") (Rows.create reg))
        (λ _. confirm_or_undo reg.id saved race)
        (Keeps-on_err G k _ (Rows.create reg) (create-Keeps reg good))
        (λ _. confirm_or_undo-Keeps G k race reg.id (e.owned race.capacity reg.id) saved)

  pub register-Keeps : (pf : Platform) (input : RegisterInput) → Keeps G (register pf input)
  register-Keeps = register-Keeps_of G k entry-Keeps

  pub confirm_by_id-Keeps : (id : ℕ) → Keeps G (confirm_by_id id)
  unfolding confirm_by_id
  confirm_by_id-Keeps id =
      let person_of = λ (reg : Registration).
        on_err (wrap "getting participant") (Rows.participant_by_id reg.participant_id) in
      let race_of =
        λ (reg : Registration). on_err (wrap "finding race") (RaceService.by_id reg.race_id) in
      Keeps-bind G k (on_err (wrap "getting registration") (Rows.by_id id))
        (λ reg. race_of reg >>= λ race. person_of reg >>= λ person. confirm id person race)
        (Keeps-on_err G k _ (Rows.by_id id) (by_id-Keeps G k id))
        λ reg.
          Keeps-bind G k (race_of reg) (λ race. person_of reg >>= λ person. confirm id person race)
            (Keeps-on_err G k _ (RaceService.by_id reg.race_id) (Races.by_id-Keeps G k reg.race_id))
            λ race.
              Keeps-bind G k (person_of reg) (λ person. confirm id person race)
                (Keeps-on_err G k _ (Rows.participant_by_id reg.participant_id)
                  (participant_by_id-Keeps G k reg.participant_id))
                λ person. confirm-Keeps G k race id (e.owned race.capacity id) person

module _ (G : Guarantee) (k : IsKept G) where
  pub by_race-Keeps : (race_id : ℕ) → Keeps G (by_race race_id)
  unfolding by_race details_of
  by_race-Keeps race_id =
      Keeps-on_err G k _ _ (λ w s. call-Kept G k (details_of race_id) k.same w s)
