-- ===== src/Participant/Service/Outcome.antt =====
-- What `Register` returns and sends, whatever the other sessions do.
use go_finish_line_api.Prelude.{
  ℕ, zero, suc, ◌≡◌, refl, some, [], ◌∷◌, ◌++◌, Bool-cases, inl, inr, arith, ℤ, pos, ◌≤ℤ◌, ◌∙◌,
}
use go_finish_line_api.Text.{Text, Platform}
use go_finish_line_api.Civil.{Time}
use go_finish_line_api.Apperr.{Err, Result, ok, err, is_dorsal_taken, wrap}
use go_finish_line_api.Race.Entity.{Race}
use go_finish_line_api.Race.Repository as Races
use go_finish_line_api.Race.Service as RaceService
use go_finish_line_api.Participant.Values.{confirmed}
use go_finish_line_api.Participant.Person.{Participant}
use go_finish_line_api.Participant.Registration
use go_finish_line_api.Participant.Registration.{Registration, new_registration}
use go_finish_line_api.Participant.Registration.Laws.{confirm_iff}
use go_finish_line_api.Participant.Repository
use go_finish_line_api.Participant.Service.{
  RegisterInput, Completed, settle, after_save, try_dorsal, attempt, confirm_loop, confirm,
  undo_failed, confirm_or_undo, accept, store, enrol, register, registration_params, notice,
}
use go_finish_line_api.Participant.Service.Accept.{accept-world}
use go_finish_line_api.Store.{World, Action, ◌>>=◌, on_err, time_now, new_uuid}
use go_finish_line_api.Store.Laws.{call-outbox}

-- A confirmed registration with a dorsal that fits the race.
pub record IsNumbered (race : Race) (reg : Registration) : Type 0 where
  pub is_confirmed : reg.status ≡ confirmed
  pub dorsal : ℤ
  pub has_dorsal : reg.dorsal ≡ some dorsal
  pub from_one : pos 1 ≤ℤ dorsal
  pub fits : dorsal ≤ℤ race.capacity

confirm-IsNumbered :
    (race : Race) (dorsal : ℤ) (at : Time) (r r' : Registration)
    → Registration.confirm dorsal race.capacity at r ≡ ok r'
    → IsNumbered race r'
confirm-IsNumbered race dorsal at r r' h =
    let (_, low, high, same) = (confirm_iff dorsal race.capacity at r r').0 h in
    rw same (record {
      is_confirmed = refl;
      dorsal = dorsal;
      has_dorsal = refl;
      from_one = low;
      fits = high;
    })

-- What a completed registration is, by the worlds before and after the call.
pub record IsDone (w w' : World) (done : Completed) : Type 0 where
  pub numbered : IsNumbered done.race done.registration
  pub told : w'.outbox ≡ w.outbox ++ notice done.participant done.registration done.race ∷ []

-- A call returns a completed registration and has told of it once, or an error and has told of
-- nothing.
abbrev pub TellsOnce : World → Result Completed × World → Type 0
TellsOnce w (ok done, w') = IsDone w w' done
TellsOnce w (err e, w') = w'.outbox ≡ w.outbox

abbrev pub Tells : Action Completed → Type 0
Tells m = (w : World) → TellsOnce w (m w)

TellsOnce-outbox :
    (w v : World) (out : Result Completed × World)
    → v.outbox ≡ w.outbox
    → TellsOnce v out
    → TellsOnce w out
TellsOnce-outbox w v (ok done, w') same h = record {
  numbered = h.numbered;
  told = rw (← same) h.told;
}
TellsOnce-outbox w v (err e, w') same h = h ∙ same

-- An action that sends nothing.
abbrev IsSilent : {A : Type 0} → Action A → Type 0
IsSilent m = (w : World) → (m w).1.outbox ≡ w.outbox

Tells-after :
    {A : Type 0} (f : A → Action Completed) (r : Result A) (w v : World)
    → ((a : A) → r ≡ ok a → Tells (f a))
    → v.outbox ≡ w.outbox
    → TellsOnce w (◌>>=◌ (λ _. (r, v)) f v)
Tells-after f (ok a) w v hf same = TellsOnce-outbox w v (f a v) same (hf a refl v)
Tells-after f (err e) w v hf same = same

Tells-bind :
    {A : Type 0} (m : Action A) (f : A → Action Completed)
    → IsSilent m
    → ((a : A) → Tells (f a))
    → Tells (m >>= f)
Tells-bind m f quiet hf w = Tells-after f (m w).0 w (m w).1 (λ a _. hf a) (quiet w)

IsSilent-on_err : {A : Type 0} (g : Err → Err) (m : Action A) → IsSilent m → IsSilent (on_err g m)
IsSilent-on_err g m h w = ground (arith, h w)

settle-Tells :
    (person : Participant) (race : Race) (reg : Registration) (again : Action Completed)
    (saved : Result (Unit {0}))
    → IsNumbered race reg
    → Tells again
    → Tells (settle person race reg again saved)
unfolding settle
settle-Tells person race reg again (ok _) good h w = record { numbered = good; told = refl }
settle-Tells person race reg again (err e) good h w = elim (Bool-cases (is_dorsal_taken e)) [
  | inl taken ↦ rw (taken, settle) (h w)
  | inr other ↦ rw (other, settle) refl
]

after_save-Tells :
    (person : Participant) (race : Race) (reg : Registration) (again : Action Completed)
    → IsNumbered race reg
    → Tells again
    → Tells (after_save person race reg again)
unfolding after_save Repository.save_confirmation
after_save-Tells person race reg again good h w =
    let (saved, v) = Repository.save_confirmation reg w in
    TellsOnce-outbox w v (settle person race reg again saved v)
      (call-outbox (Repository.update_sql reg) w)
      (settle-Tells person race reg again saved good h v)

try_dorsal-Tells :
    (person : Participant) (race : Race) (again : Action Completed) (reg : Registration) (next : ℤ)
    → Tells again
    → Tells (try_dorsal person race again reg next)
unfolding try_dorsal
try_dorsal-Tells person race again reg next h w =
    Tells-after (λ c. after_save person race c again)
      (Registration.confirm next race.capacity (w.clock w.ticks) reg) w (time_now w).1
      (λ c e. after_save-Tells person race c again (confirm-IsNumbered race next _ reg c e) h) refl

attempt-Tells :
    (id : ℕ) (person : Participant) (race : Race) (again : Action Completed)
    → Tells again
    → Tells (attempt id person race again)
unfolding attempt Repository.by_id Repository.next_dorsal
attempt-Tells id person race again h =
    let read = on_err (wrap "getting next dorsal") (Repository.next_dorsal race.id) in
    Tells-bind (on_err (wrap "getting registration") (Repository.by_id id))
      (λ reg. read >>= λ next. try_dorsal person race again reg next)
      (IsSilent-on_err _ (Repository.by_id id) (λ w. call-outbox _ w))
      λ reg.
        Tells-bind read (λ next. try_dorsal person race again reg next)
          (IsSilent-on_err _ (Repository.next_dorsal race.id) (λ w. call-outbox _ w))
          λ next. try_dorsal-Tells person race again reg next h

confirm_loop-Tells :
    (n id : ℕ) (person : Participant) (race : Race) → Tells (confirm_loop n id person race)
unfolding confirm_loop
confirm_loop-Tells zero id person race w = refl
confirm_loop-Tells (suc n) id person race w =
    attempt-Tells id person race (confirm_loop n id person race)
      (confirm_loop-Tells n id person race) w

undo-Tells :
    (id : ℕ) (w : World) (out : Result Completed × World)
    → TellsOnce w out
    → TellsOnce w (undo_failed id out)
unfolding undo_failed Repository.delete
undo-Tells id w (ok done, v) h = h
undo-Tells id w (err e, v) h = call-outbox (Repository.delete_sql id) v ∙ h

confirm_or_undo-Tells :
    (id : ℕ) (person : Participant) (race : Race) → Tells (confirm_or_undo id person race)
unfolding confirm_or_undo confirm
confirm_or_undo-Tells id person race w =
    undo-Tells id w (confirm id person race w) (confirm_loop-Tells 5 id person race w)

upsert_by_email-IsSilent :
    (pf : Platform) (p : Participant) → IsSilent (Repository.upsert_by_email pf p)
unfolding Repository.upsert_by_email
upsert_by_email-IsSilent pf p w = grind (arith, call-outbox)

by_document_id-IsSilent : (slug : Text) → IsSilent (RaceService.by_document_id slug)
unfolding RaceService.by_document_id Races.by_document_id
by_document_id-IsSilent slug w = grind (arith, call-outbox)

create-IsSilent : (reg : Registration) → IsSilent (Repository.create reg)
unfolding Repository.create
create-IsSilent reg w = call-outbox (Repository.insert_sql reg) w

store-Tells :
    (pf : Platform) (input : RegisterInput) (race : Race) (saved : Participant)
    → Tells (store pf input race saved)
unfolding store
store-Tells pf input race saved w =
    Tells-after
      (λ reg. on_err (wrap "creating registration") (Repository.create reg) >>= λ _.
        confirm_or_undo reg.id saved race)
      (new_registration pf (w.ids w.drawn) (w.clock w.ticks)
        (registration_params input saved.id race.id))
      w (new_uuid (time_now w).1).1
      (λ reg e.
        Tells-bind (on_err (wrap "creating registration") (Repository.create reg))
          (λ _. confirm_or_undo reg.id saved race)
          (IsSilent-on_err _ (Repository.create reg) (create-IsSilent reg))
          (λ _. confirm_or_undo-Tells reg.id saved race))
      refl

enrol-Tells :
    (pf : Platform) (input : RegisterInput) (race : Race) (person : Participant)
    → Tells (enrol pf input race person)
unfolding enrol
enrol-Tells pf input race person =
    Tells-bind (on_err (wrap "upserting participant") (Repository.upsert_by_email pf person))
      (λ saved. store pf input race saved)
      (IsSilent-on_err _ (Repository.upsert_by_email pf person)
        (upsert_by_email-IsSilent pf person))
      λ saved. store-Tells pf input race saved

accept-IsSilent :
    (pf : Platform) (input : RegisterInput) (race : Race) → IsSilent (accept pf input race)
accept-IsSilent pf input race w = rw (accept-world pf input race w) refl

-- Whatever happens between its statements, `Register` either returns a confirmed registration,
-- with a dorsal from 1 to the capacity of its race, and has handed exactly this one to the
-- notifier, or it returns an error and has handed over nothing.
pub register-Tells :
    (pf : Platform) (input : RegisterInput) (w : World) → TellsOnce w (register pf input w)
unfolding register
register-Tells pf input =
    Tells-bind (on_err (wrap "finding race") (RaceService.by_document_id input.race_document_id))
      (λ race. accept pf input race >>= λ person. enrol pf input race person)
      (IsSilent-on_err _ (RaceService.by_document_id input.race_document_id)
        (by_document_id-IsSilent input.race_document_id))
      λ race.
        Tells-bind (accept pf input race) (λ person. enrol pf input race person)
          (accept-IsSilent pf input race) λ person. enrol-Tells pf input race person
