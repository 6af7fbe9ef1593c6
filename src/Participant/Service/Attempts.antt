-- ===== src/Participant/Service/Attempts.antt =====
-- The retry loop of `confirm`: how often it asks the database.
use go_finish_line_api.Prelude.{ℕ, zero, suc, ◌+◌, ◌*◌, ◌≤◌, length, arith}
use go_finish_line_api.Race.Entity.{Race}
use go_finish_line_api.Participant.Person.{Participant}
use go_finish_line_api.Participant.Registration.{Registration}
use go_finish_line_api.Participant.Repository
use go_finish_line_api.Participant.Service.{Completed, after_save, attempt, confirm_loop, confirm}
use go_finish_line_api.Store.{World, Action}
use go_finish_line_api.Store.Laws.{call-script}

-- An action takes at most `n` entries of the script.
abbrev pub Spends : {A : Type 0} → ℕ → Action A → Type 0
Spends n m = (w : World) → length w.script ≤ length (m w).1.script + n

after_save-Spends :
    (n : ℕ) (person : Participant) (race : Race) (reg : Registration) (again : Action Completed)
    → Spends n again
    → Spends (n + 1) (after_save person race reg again)
unfolding after_save Repository.save_confirmation
after_save-Spends n person race reg again h w =
    grind (arith, call-script (Repository.update_sql reg) w, h)

attempt-Spends :
    (n id : ℕ) (person : Participant) (race : Race) (again : Action Completed)
    → Spends n again
    → Spends (n + 3) (attempt id person race again)
unfolding attempt Repository.by_id Repository.next_dorsal
attempt-Spends n id person race again h w =
    grind (arith, call-script, after_save-Spends n person race)

confirm_loop-Spends :
    (n id : ℕ) (person : Participant) (race : Race) → Spends (3 * n) (confirm_loop n id person race)
unfolding confirm_loop
confirm_loop-Spends zero id person race w = omega arith
confirm_loop-Spends (suc n) id person race w = omega (
  arith,
  attempt-Spends (3 * n) id person race (confirm_loop n id person race)
      (confirm_loop-Spends n id person race) w,
)

-- Whatever the other sessions do, a confirmation ends, after 15 statements at most: five attempts of
-- three.
pub confirm-Spends :
    (id : ℕ) (person : Participant) (race : Race) (w : World)
    → length w.script ≤ length (confirm id person race w).1.script + 15
unfolding confirm
confirm-Spends id person race = confirm_loop-Spends 5 id person race
