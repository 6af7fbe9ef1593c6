-- ===== src/Participant/Registration/Laws.antt =====
-- Construction and confirmation of a registration, on every branch.
use go_finish_line_api.Prelude.{ℕ, ◌≡◌, ◌↔◌, none, some, ℤ, pos, ◌≤ℤ◌, arith}
use go_finish_line_api.Text.{Platform}
use go_finish_line_api.Civil.{Time}
use go_finish_line_api.Apperr.{ok, already_confirmed, dorsal_invalid, race_full}
use go_finish_line_api.Participant.Values.{fail, pending, confirmed}
use go_finish_line_api.Participant.Registration
use go_finish_line_api.Participant.Registration.{Registration, RegistrationParams, new_registration}

pub confirm_iff :
    (dorsal capacity : ℤ) (at : Time) (r r' : Registration)
    → (Registration.confirm dorsal capacity at r ≡ ok r') ↔ (
        (r.status ≡ pending)
        × (pos 1 ≤ℤ dorsal)
        × (dorsal ≤ℤ capacity)
        × (r' ≡ record r { status = confirmed; dorsal = some dorsal; confirmed_at = some at }))
unfolding Registration.confirm
confirm_iff dorsal capacity at r r' = (λ h. ground arith, λ h. ground arith)

-- The four answers of `Confirm`, each with the exact condition for it: a pending registration and
-- a dorsal between 1 and the capacity are confirmed, with the status, the dorsal and the time
-- written and nothing else changed; a confirmed one is refused first, then a dorsal below 1, then
-- one above the capacity.
pub confirm_verdict :
    (dorsal capacity : ℤ) (at : Time) (r r' : Registration)
    → ((Registration.confirm dorsal capacity at r ≡ ok r') ↔ (
        (r.status ≡ pending)
        × (pos 1 ≤ℤ dorsal)
        × (dorsal ≤ℤ capacity)
        × (r' ≡ record r { status = confirmed; dorsal = some dorsal; confirmed_at = some at })))
      × ((Registration.confirm dorsal capacity at r ≡ fail already_confirmed)
          ↔ (r.status ≡ confirmed))
      × ((Registration.confirm dorsal capacity at r ≡ fail dorsal_invalid)
          ↔ ((r.status ≡ pending) × (dorsal ≤ℤ pos 0)))
      × ((Registration.confirm dorsal capacity at r ≡ fail race_full)
          ↔ ((r.status ≡ pending) × (pos 1 ≤ℤ dorsal) × ¬ (dorsal ≤ℤ capacity)))
unfolding Registration.confirm
confirm_verdict dorsal capacity at r r' =
    (confirm_iff dorsal capacity at r r', ground arith, ground arith, ground arith)

-- A new registration is pending, for the race and the person that were asked for, with neither a
-- dorsal nor a time of confirmation.
pub new_registration-pending :
    (pf : Platform) (id : ℕ) (now : Time) (p : RegistrationParams) (r : Registration)
    → new_registration pf id now p ≡ ok r
    → (r.status ≡ pending)
      × (r.dorsal ≡ none)
      × (r.confirmed_at ≡ none)
      × (r.id ≡ id)
      × (r.participant_id ≡ p.participant_id)
      × (r.race_id ≡ p.race_id)
unfolding new_registration
new_registration-pending pf id now p r h = ground arith
