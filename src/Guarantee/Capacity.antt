-- ===== src/Guarantee/Capacity.antt =====
-- Dorsals stay within a bound on the capacities: a confirmation takes none above the capacity of the
-- race that the request has read, and syncs and other sessions keep to the bound.
use go_finish_line_api.Prelude.{◌≡◌, none, some, find, ℤ, ◌≤ℤ◌, All-find, arith}
use go_finish_line_api.Text.{Text, Platform, text_eq}
use go_finish_line_api.Apperr.{ok, wrap}
use go_finish_line_api.Race.Entity.{Race}
use go_finish_line_api.Race.Repository as RaceRows
use go_finish_line_api.Race.Service as RaceService
use go_finish_line_api.Participant.Person.{Participant}
use go_finish_line_api.Participant.Registration.{Registration}
use go_finish_line_api.Participant.Repository as Rows
use go_finish_line_api.Participant.Repository.{confirm_row}
use go_finish_line_api.Participant.Service.{RegisterInput, register, confirm_or_undo, accept, enrol}
use go_finish_line_api.Guarantee.Races
use go_finish_line_api.Guarantee.Confirmations.{confirm_or_undo-Keeps}
use go_finish_line_api.Guarantee.Registrations
use go_finish_line_api.Guarantee.Registrations.{entry, enter-Keeps}
use go_finish_line_api.Guarantee.Heeding.{heeding, heeding-IsKept, heeding-Enters}
use go_finish_line_api.Guarantee.{
  others, Trusts, Keeps, call-Kept, Kept-after, Keeps-bind, Keeps-on_err,
}
use go_finish_line_api.Store.{World, call, this_interlude, ◌>>=◌, on_err}
use go_finish_line_api.Guarantee.Bounds.{
  IsBounded, bounding, Bounded-IsKept, entered-Bounded, Bounded-Owns,
}

lookup-find :
    (slug : Text) (w : World) (race : Race)
    → (on_err (wrap "finding race") (RaceService.by_document_id slug) w).0 ≡ ok race
    → find (λ r. text_eq r.document_id slug) ((this_interlude w.script).others w.db).races
      ≡ some race
unfolding RaceService.by_document_id RaceRows.by_document_id call
lookup-find slug w race found = ground arith

module _ (n : ℤ) where
  -- The race that a request has read is within the bound.
  lookup-small :
      (slug : Text) (w : World) (race : Race)
      → Trusts (bounding n) w.script
      → IsBounded n w.db
      → (on_err (wrap "finding race") (RaceService.by_document_id slug) w).0 ≡ ok race
      → race.capacity ≤ℤ n
  lookup-small slug w race t s found =
      let after = others (bounding n) (Bounded-IsKept n) w.script w.db t s in
      All-find (λ race. race.capacity ≤ℤ n) (λ r. text_eq r.document_id slug) _ race after.races
        (lookup-find slug w race found)

  create-Keeps : (q : Registration) → q.dorsal ≡ none → Keeps (bounding n) (Rows.create q)
  unfolding Rows.create
  create-Keeps q blank w t =
      call-Kept (bounding n) (Bounded-IsKept n) (Rows.insert_sql q)
        (λ db. entered-Bounded n q db (rw blank tt)) w t

  entry-Keeps :
      (race : Race) (q : Registration) (saved : Participant)
      → race.capacity ≤ℤ n
      → q.dorsal ≡ none
      → Keeps (bounding n) (entry q race saved)
  entry-Keeps race q saved small blank =
      Keeps-bind (bounding n) (Bounded-IsKept n)
        (on_err (wrap "creating registration") (Rows.create q))
        (λ _. confirm_or_undo q.id saved race)
        (Keeps-on_err (bounding n) (Bounded-IsKept n) _ (Rows.create q) (create-Keeps q blank))
        λ _.
          confirm_or_undo-Keeps (bounding n) (Bounded-IsKept n) race q.id
            (Bounded-Owns n race.capacity q.id small) saved

  register-IsBounded :
      (pf : Platform) (input : RegisterInput) (w : World)
      → Trusts (bounding n) w.script
      → IsBounded n w.db
      → IsBounded n (register pf input w).1.db
  unfolding register
  register-IsBounded pf input w t s =
      let lookup =
        on_err (wrap "finding race") (RaceService.by_document_id input.race_document_id) in
      let found =
        Keeps-on_err (bounding n) (Bounded-IsKept n) (wrap "finding race")
          (RaceService.by_document_id input.race_document_id)
          (Races.by_document_id-Keeps (bounding n) (Bounded-IsKept n) input.race_document_id) w t in
      let whole =
        Kept-after (bounding n) (Bounded-IsKept n)
          (λ race. accept pf input race >>= λ person. enrol pf input race person) (lookup w).0 w
          (lookup w).1 found
          (λ race read.
            let small = lookup-small input.race_document_id w race t s read in
            enter-Keeps (bounding n) (Bounded-IsKept n) race
              (λ q saved blank good. entry-Keeps race q saved small blank) pf input) in
      whole.kept s

  pub register-Keeps :
      (pf : Platform) (input : RegisterInput) → Keeps (bounding n) (register pf input)
  register-Keeps pf input w t =
      let trust = (bounding n).trust in
      record {
        kept = register-IsBounded pf input w t;
        trusts =
            (Registrations.register-Keeps (heeding trust) (heeding-IsKept trust)
              (heeding-Enters trust) pf input w t).trusts;
      }
