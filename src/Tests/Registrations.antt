-- ===== src/Tests/Registrations.antt =====
-- Registrations and confirmations.
use go_finish_line_api.Prelude.{
  ℕ, ◌+ℤ◌, ◌+◌, ◌≤◌, ◌≡◌, ◌↔◌, ◌⊎◌, inr, refl, true, false, none, some, [], ◌∷◌, any, select, find,
  length, ◌==◌, pos, ◌≤ℤ◌, arith,
}
use go_finish_line_api.Text.{codes, text_eq, to_lower, to_upper, trim_space}
use go_finish_line_api.Civil.{civil, midnight, sub_years, days_in_month}
use go_finish_line_api.Apperr.{
  AppError, app, root, as_app, kind, msg, ok, already_confirmed, dorsal_invalid, race_full,
  referral_required, wrap,
}
use go_finish_line_api.Httpx.{respond_error, respond, error}
use go_finish_line_api.Httpx.Laws.{IsAnswerTo, respond_error_total}
use go_finish_line_api.Participant.Values.{
  fail, m, shirt_size_text, parse_shirt_size, pending, confirmed, normalize_phone,
  matches_document_id,
}
use go_finish_line_api.Participant.Values.Choices.{parse_shirt_size_iff}
use go_finish_line_api.Participant.Values.Patterns.{IsDocumentId, matches_document_id_iff}
use go_finish_line_api.Participant.Registration as Reg
use go_finish_line_api.Participant.Registration.Laws.{confirm_verdict}
use go_finish_line_api.Participant.Repository
use go_finish_line_api.Participant.Repository.{dorsal_in_use, max_dorsal}
use go_finish_line_api.Participant.Person.{Participant, new_participant}
use go_finish_line_api.Participant.Values.{
  strip_separators, matches_phone, normalize_email, normalize_document_id, validate_birth_date,
  parse_gender, female,
}
use go_finish_line_api.Participant.Repository.Sound.{IsSound, waiting}
use go_finish_line_api.Participant.Repository.Dorsals.{candidate, candidate-free}
use go_finish_line_api.Participant.Service.{confirm, confirm_or_undo, register}
use go_finish_line_api.Participant.Service.Frame.{IsSafe}
use go_finish_line_api.Participant.Service.Safety.{register-Keeps}
use go_finish_line_api.Participant.Listing.{RegistrationDetail, details_of}
use go_finish_line_api.Participant.Listing.Whole.{details, IsLineOf, details_of_complete}
use go_finish_line_api.Participant.Listing.Order.{InOrder}
use go_finish_line_api.Participant.Listing.Lines.{of_id}
use go_finish_line_api.Participant.Service.Outcome.{TellsOnce, register-Tells}
use go_finish_line_api.Participant.Service.Attempts.{confirm-Spends}
use go_finish_line_api.Participant.Service.Rejection.{
  IsRejected, register_rejected, confirm_or_undo-clean,
}
use go_finish_line_api.Participant.Service.Alone.{confirm_full}
use go_finish_line_api.Race.Entity.{Race}
use go_finish_line_api.Race.Service as Races
use go_finish_line_api.Race.Repository as RaceRows
use go_finish_line_api.Store.{call, this_interlude}
use go_finish_line_api.Tests.Data.{
  platform, today, the_race, form, unheard, runner, waiting_row, tables, world,
}

pub tables-IsSound : IsSound tables
tables-IsSound = record {
  apart = (tt, tt);
  rows = (waiting refl refl refl, tt);
  refers = ((refl, refl), tt);
}

world-IsSafe : IsSafe world
world-IsSafe = record { sound = tables-IsSound; relies = tt }

register-Keeps_example : IsSafe (register platform form world).1
register-Keeps_example = register-Keeps platform form world world-IsSafe

register-Tells_example : TellsOnce world (register platform form world)
register-Tells_example = register-Tells platform form world

-- A race that is full.
abbrev full_race : Race
full_race = record the_race { capacity = pos 0 }

first_candidate : candidate 7 (waiting_row ∷ []) ≡ pos 1
unfolding max_dorsal ◌+ℤ◌
first_candidate = refl

above : ¬ (candidate 7 (waiting_row ∷ []) ≤ℤ pos 0)
above = rw first_candidate (λ h. omega arith)

fails_full : (confirm_or_undo 11 runner full_race world).0 ≡ fail race_full
unfolding confirm_or_undo confirm Repository.by_id Repository.next_dorsal Repository.delete call
    Reg.confirm
fails_full = refl

not_lost : (this_interlude (confirm 11 runner full_race world).1.script).fails ≡ false
unfolding confirm Repository.by_id Repository.next_dorsal call Reg.confirm
not_lost = refl

confirm_or_undo-clean_example :
    ((confirm 11 runner full_race world).0 ≡ fail race_full)
    × (any (λ r. r.id == 11) (confirm_or_undo 11 runner full_race world).1.db.registrations ≡ false)
confirm_or_undo-clean_example =
    confirm_or_undo-clean 11 runner full_race world (app (AppError.participant race_full))
      fails_full not_lost

confirm_full_example : (confirm 11 runner full_race world).0 ≡ fail race_full
confirm_full_example =
    confirm_full 11 runner full_race world waiting_row refl tables-IsSound refl refl above

confirm-Spends_example : 0 ≤ length (confirm 11 runner the_race world).1.script + 15
confirm-Spends_example = confirm-Spends 11 runner the_race world

confirm_verdict_example :
    ((Reg.confirm (pos 3) (pos 2) (midnight today) waiting_row ≡ ok waiting_row) ↔ (
      (waiting_row.status ≡ pending)
      × (pos 1 ≤ℤ pos 3)
      × (pos 3 ≤ℤ pos 2)
      × (waiting_row ≡ record waiting_row {
        status = confirmed;
        dorsal = some (pos 3);
        confirmed_at = some (midnight today);
      })))
    × ((Reg.confirm (pos 3) (pos 2) (midnight today) waiting_row ≡ fail already_confirmed)
        ↔ (waiting_row.status ≡ confirmed))
    × ((Reg.confirm (pos 3) (pos 2) (midnight today) waiting_row ≡ fail dorsal_invalid)
        ↔ ((waiting_row.status ≡ pending) × (pos 3 ≤ℤ pos 0)))
    × ((Reg.confirm (pos 3) (pos 2) (midnight today) waiting_row ≡ fail race_full)
        ↔ ((waiting_row.status ≡ pending) × (pos 1 ≤ℤ pos 3) × ¬ (pos 3 ≤ℤ pos 2)))
confirm_verdict_example = confirm_verdict (pos 3) (pos 2) (midnight today) waiting_row waiting_row

found_race : (Races.by_document_id (codes "carrera") world).0 ≡ ok the_race
unfolding Races.by_document_id RaceRows.by_document_id call text_eq
found_race = refl

abbrev ana : Participant
ana = record {
  id = 100;
  first_names = codes "Ana";
  last_names = codes "Rojas";
  email = codes "ana@example.com";
  phone = codes "+59170012345";
  document_id = codes "1234567";
  birth_date = midnight (civil 11990 5 20);
  gender = female;
  created_at = midnight today;
}

-- A good person, who does not say where the race was heard of.
refused_form :
    IsRejected platform unheard the_race
      (Races.by_document_id (codes "carrera") world).1
      (app (AppError.participant referral_required))
unfolding Races.by_document_id RaceRows.by_document_id call text_eq new_participant Reg.validate
    parse_shirt_size normalize_email normalize_phone normalize_document_id validate_birth_date
    parse_gender trim_space to_lower matches_phone strip_separators matches_document_id sub_years
    days_in_month to_upper
refused_form = inr (ana, refl, refl)

register_rejected_example :
    ((register platform unheard world).0 ≡ fail referral_required)
    × ((register platform unheard world).1.db ≡ tables)
register_rejected_example =
    register_rejected platform unheard world the_race (app (AppError.participant referral_required))
      found_race refused_form

candidate-free_example :
    dorsal_in_use 11 (some (candidate 7 (waiting_row ∷ []))) (waiting_row ∷ []) ≡ false
candidate-free_example = candidate-free 11 7 waiting_row (waiting_row ∷ []) (tt, tt) refl refl

parse_shirt_size_iff_example :
    (parse_shirt_size platform (codes "m") ≡ ok m)
    ↔ (to_upper platform (trim_space (codes "m")) ≡ shirt_size_text m)
parse_shirt_size_iff_example = parse_shirt_size_iff platform (codes "m") m

phone_read : normalize_phone (codes " 700-12345") ≡ ok (codes "70012345")
unfolding normalize_phone trim_space strip_separators matches_phone
phone_read = refl

matches_document_id_iff_example :
    (matches_document_id (codes "1234567-1B") ≡ true) ↔ IsDocumentId (codes "1234567-1B")
matches_document_id_iff_example = matches_document_id_iff (codes "1234567-1B")

respond_error_total_example :
    ((a : AppError) × (root (wrap "confirming" (app (AppError.participant race_full))) ≡ app a)
      × IsAnswerTo
          (kind a)
          (respond_error {A = ℕ} (wrap "confirming" (app (AppError.participant race_full)))).status
      × ((respond_error {A = ℕ} (wrap "confirming" (app (AppError.participant race_full)))).body
          ≡ error (msg a)))
    ⊎ ((as_app (wrap "confirming" (app (AppError.participant race_full))) ≡ none)
        × (respond_error {A = ℕ} (wrap "confirming" (app (AppError.participant race_full)))
            ≡ respond 500 (error "internal server error")))
respond_error_total_example =
    respond_error_total (wrap "confirming" (app (AppError.participant race_full)))

details_of_complete_example :
    ((p : Participant) × (d : RegistrationDetail) × (find (λ q. q.id == 3) (runner ∷ []) ≡ some p)
      × (select (of_id 11) (details (details_of 7 tables).0) ≡ d ∷ [])
      × IsLineOf waiting_row p d)
    × (length (details (details_of 7 tables).0)
        ≡ length (select (λ q. q.race_id == 7) (waiting_row ∷ [])))
    × InOrder (details (details_of 7 tables).0)
details_of_complete_example =
    details_of_complete 7 tables waiting_row tables-IsSound (tt, tt) refl refl
