-- ===== src/Participant/Service/Alone.antt =====
-- A confirmation that no other session disturbs.
use go_finish_line_api.Prelude.{ℕ, ◌≡◌, refl, ◌∙◌, some, [], find, ◌==◌, ℤ, pos, ◌≤ℤ◌, arith, ap}
use go_finish_line_api.Civil.{Time}
use go_finish_line_api.Apperr.{race_full, ok}
use go_finish_line_api.Race.Entity.{Race}
use go_finish_line_api.Participant.Values.{fail, pending, confirmed}
use go_finish_line_api.Participant.Person.{Participant}
use go_finish_line_api.Participant.Registration
use go_finish_line_api.Participant.Registration.{Registration}
use go_finish_line_api.Participant.Registration.Laws.{confirm_verdict}
use go_finish_line_api.Participant.Repository
use go_finish_line_api.Participant.Repository.{max_dorsal, coalesce}
use go_finish_line_api.Participant.Repository.Sound.{IsSound}
use go_finish_line_api.Participant.Repository.Dorsals.{candidate, candidate-pos}
use go_finish_line_api.Participant.Service.{Completed, try_dorsal, attempt, confirm_loop, confirm}
use go_finish_line_api.Store.{World, Action, call}

by_id_alone :
    (id : ℕ) (w : World) (reg : Registration)
    → w.script ≡ []
    → find (λ r. r.id == id) w.db.registrations ≡ some reg
    → Repository.by_id id w ≡ (ok reg, w)
unfolding Repository.by_id call
by_id_alone id w reg h e = ground arith

next_dorsal_alone :
    (race_id : ℕ) (w : World)
    → w.script ≡ []
    → Repository.next_dorsal race_id w ≡ (ok (candidate race_id w.db.registrations), w)
unfolding Repository.next_dorsal call
next_dorsal_alone race_id w h = ground arith

attempt_alone :
    (id : ℕ) (person : Participant) (race : Race) (again : Action Completed) (w : World)
    (reg : Registration)
    → w.script ≡ []
    → find (λ r. r.id == id) w.db.registrations ≡ some reg
    → attempt id person race again w
      ≡ try_dorsal person race again reg (candidate race.id w.db.registrations) w
unfolding attempt
attempt_alone id person race again w reg h e =
    ground (arith, by_id_alone id w reg h e, next_dorsal_alone race.id w h)

abbrev pub numbered : Registration → ℤ → Time → Registration
numbered reg c at = record reg { status = confirmed; dorsal = some c; confirmed_at = some at }

try_dorsal_full :
    (person : Participant) (race : Race) (again : Action Completed) (reg : Registration) (c : ℤ)
    (w : World)
    → reg.status ≡ pending
    → pos 1 ≤ℤ c
    → ¬ (c ≤ℤ race.capacity)
    → (try_dorsal person race again reg c w).0 ≡ fail race_full
unfolding try_dorsal
try_dorsal_full person race again reg c w waits low full =
    let no = (confirm_verdict c race.capacity (w.clock w.ticks) reg reg).3.1 (waits, low, full) in
    rw no refl

-- With no other session at work, in sound tables, a pending registration of the race is refused
-- because the race is full when the highest dorsal of the race plus 1 is above the capacity.
pub confirm_full :
    (id : ℕ) (person : Participant) (race : Race) (w : World) (reg : Registration)
    → w.script ≡ []
    → IsSound w.db
    → find (λ r. r.id == id) w.db.registrations ≡ some reg
    → reg.status ≡ pending
    → ¬ (candidate race.id w.db.registrations ≤ℤ race.capacity)
    → (confirm id person race w).0 ≡ fail race_full
unfolding confirm confirm_loop
confirm_full id person race w reg h s e waits full =
    let again = confirm_loop 4 id person race in
    ap (λ out. out.0) (attempt_alone id person race again w reg h e)
    ∙ try_dorsal_full person race again reg (candidate race.id w.db.registrations) w waits
        (candidate-pos race.id w.db.registrations s.rows) full
