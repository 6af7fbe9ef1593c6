-- ===== src/Guarantee/Confirmations.antt =====
-- The confirmation of a registration keeps what the statements on that registration keep.
use go_finish_line_api.Prelude.{
  find-passes, arith, ◌==◌, ℕ, zero, suc, ◌≡◌, refl, ◌∙◌, ℤ, Bool-cases, inl, inr,
}
use go_finish_line_api.Civil.{Time}
use go_finish_line_api.Apperr.{Result, ok, err, wrap, is_dorsal_taken}
use go_finish_line_api.Race.Entity.{Race}
use go_finish_line_api.Participant.Person.{Participant}
use go_finish_line_api.Participant.Registration
use go_finish_line_api.Participant.Registration.{
  Registration, RegistrationParams, validate, new_registration, nil_id,
}
use go_finish_line_api.Participant.Registration.Laws.{confirm_iff}
use go_finish_line_api.Participant.Repository as Rows
use go_finish_line_api.Participant.Repository.Sound.{IsRow, running}
use go_finish_line_api.Participant.Service.{
  Completed, settle, after_save, try_dorsal, attempt, confirm_loop, confirm, undo_failed,
  confirm_or_undo,
}
use go_finish_line_api.Participant.Repository.Places.{AtMost}
use go_finish_line_api.Guarantee.{
  Guarantee, IsKept, Owns, Trusts, Kept, Keeps, here, Kept-trans, call-Kept, first-Kept, Kept-after,
  Keeps-bind, Keeps-on_err, time_now-Keeps,
}
use go_finish_line_api.Store.{call, this_interlude, World, Action, ◌>>=◌, on_err, time_now}

confirm-IsRow :
    (dorsal capacity : ℤ) (at : Time) (r r' : Registration)
    → Registration.confirm dorsal capacity at r ≡ ok r'
    → IsRow r'
confirm-IsRow dorsal capacity at r r' h =
    let (_, low, _, same) = (confirm_iff dorsal capacity at r r').0 h in
    rw same (running dorsal at refl refl low refl)

confirm-id :
    (dorsal capacity : ℤ) (at : Time) (r r' : Registration)
    → Registration.confirm dorsal capacity at r ≡ ok r'
    → r'.id ≡ r.id
confirm-id dorsal capacity at r r' h =
    let (_, _, _, same) = (confirm_iff dorsal capacity at r r').0 h in rw same refl

confirm-AtMost :
    (dorsal capacity : ℤ) (at : Time) (r r' : Registration)
    → Registration.confirm dorsal capacity at r ≡ ok r'
    → AtMost capacity r'.dorsal
confirm-AtMost dorsal capacity at r r' h =
    let (_, _, high, same) = (confirm_iff dorsal capacity at r r').0 h in rw same high

-- A registration that is read by its id has it.
by_id-finds :
    (id : ℕ) (w : World) (reg : Registration)
    → (on_err (wrap "getting registration") (Rows.by_id id) w).0 ≡ ok reg
    → reg.id ≡ id
unfolding Rows.by_id call
by_id-finds id w reg h =
    let rows = ((this_interlude w.script).others w.db).registrations in
    ground (arith, find-passes (λ r. r.id == id) rows reg)

module _ (G : Guarantee) (k : IsKept G) where
  pub by_id-Keeps : (id : ℕ) → Keeps G (Rows.by_id id)
  unfolding Rows.by_id
  by_id-Keeps id w s = call-Kept G k _ (first-Kept G k (λ db. db.registrations) _ _) w s

  next_dorsal-Keeps : (race_id : ℕ) → Keeps G (Rows.next_dorsal race_id)
  unfolding Rows.next_dorsal
  next_dorsal-Keeps race_id w s = call-Kept G k _ k.same w s

  pub participant_by_id-Keeps : (id : ℕ) → Keeps G (Rows.participant_by_id id)
  unfolding Rows.participant_by_id
  participant_by_id-Keeps id w s = call-Kept G k _ (first-Kept G k (λ db. db.participants) _ _) w s

-- The confirmation of a row that the request owns.
module _ (G : Guarantee) (k : IsKept G) (race : Race) (id : ℕ) (own : Owns G race.capacity id) where
  save_confirmation-Keeps :
      (r : Registration)
      → r.id ≡ id
      → AtMost race.capacity r.dorsal
      → IsRow r
      → Keeps G (Rows.save_confirmation r)
  unfolding Rows.save_confirmation
  save_confirmation-Keeps r mine low good w s =
      call-Kept G k (Rows.update_sql r) (λ db. own.confirmed r db mine low good) w s

  delete-Keeps : Keeps G (Rows.delete id)
  unfolding Rows.delete
  delete-Keeps w s = call-Kept G k (Rows.delete_sql id) own.withdrawn w s

  settle-Kept :
      (person : Participant) (reg : Registration) (again : Action Completed)
      (saved : Result (Unit {0})) (w : World)
      → Trusts G w.script
      → Keeps G again
      → Kept G w (settle person race reg again saved w).1
  unfolding settle
  settle-Kept person reg again (ok _) w s h = record { kept = k.same w.db; trusts = s }
  settle-Kept person reg again (err e) w s h = elim (Bool-cases (is_dorsal_taken e)) [
    | inl taken ↦ rw (taken, settle) (h w s)
    | inr other ↦ rw (other, settle) (here G k w s)
  ]

  after_save-Keeps :
      (person : Participant) (reg : Registration) (again : Action Completed)
      → reg.id ≡ id
      → AtMost race.capacity reg.dorsal
      → IsRow reg
      → Keeps G again
      → Keeps G (after_save person race reg again)
  unfolding after_save
  after_save-Keeps person reg again mine low good h w s =
      let saved = save_confirmation-Keeps reg mine low good w s in
      let v = (Rows.save_confirmation reg w).1 in
      Kept-trans G k w v _ saved
        (settle-Kept person reg again (Rows.save_confirmation reg w).0 v saved.trusts h)

  try_dorsal-Keeps :
      (person : Participant) (again : Action Completed) (reg : Registration) (next : ℤ)
      → reg.id ≡ id
      → Keeps G again
      → Keeps G (try_dorsal person race again reg next)
  unfolding try_dorsal
  try_dorsal-Keeps person again reg next mine h w s =
      Kept-after G k (λ c. after_save person race c again)
        (Registration.confirm next race.capacity (w.clock w.ticks) reg) w (time_now w).1
        (time_now-Keeps G k w s)
        λ c e.
          after_save-Keeps person c again (confirm-id next race.capacity _ reg c e ∙ mine)
            (confirm-AtMost next race.capacity _ reg c e)
            (confirm-IsRow next race.capacity _ reg c e) h

  attempt-Keeps :
      (person : Participant) (again : Action Completed)
      → Keeps G again
      → Keeps G (attempt id person race again)
  unfolding attempt
  attempt-Keeps person again h w s =
      let read = on_err (wrap "getting next dorsal") (Rows.next_dorsal race.id) in
      let fetch = on_err (wrap "getting registration") (Rows.by_id id) in
      Kept-after G k (λ reg. read >>= λ next. try_dorsal person race again reg next) (fetch w).0 w
        (fetch w).1 (Keeps-on_err G k _ (Rows.by_id id) (by_id-Keeps G k id) w s)
        λ reg found.
          Keeps-bind G k read (λ next. try_dorsal person race again reg next)
            (Keeps-on_err G k _ (Rows.next_dorsal race.id) (next_dorsal-Keeps G k race.id))
            λ next. try_dorsal-Keeps person again reg next (by_id-finds id w reg found) h

  confirm_loop-Keeps : (n : ℕ) (person : Participant) → Keeps G (confirm_loop n id person race)
  unfolding confirm_loop
  confirm_loop-Keeps zero person w s = here G k w s
  confirm_loop-Keeps (suc n) person w s =
      attempt-Keeps person (confirm_loop n id person race) (confirm_loop-Keeps n person) w s

  pub confirm-Keeps : (person : Participant) → Keeps G (confirm id person race)
  unfolding confirm
  confirm-Keeps person = confirm_loop-Keeps 5 person

  undo-Kept :
      (w : World) (out : Result Completed × World)
      → Kept G w out.1
      → Kept G w (undo_failed id out).1
  unfolding undo_failed
  undo-Kept w (ok done, v) h = h
  undo-Kept w (err e, v) h = Kept-trans G k w v _ h (delete-Keeps v h.trusts)

  pub confirm_or_undo-Keeps : (person : Participant) → Keeps G (confirm_or_undo id person race)
  unfolding confirm_or_undo
  confirm_or_undo-Keeps person w s =
      undo-Kept w (confirm id person race w) (confirm-Keeps person w s)
