-- ===== src/Race/Service/Synced.antt =====
-- What a sync of the CMS leaves for registrations to find.
use go_finish_line_api.Prelude.{
  ◌+◌, ◌≡◌, refl, Bool, true, false, some, List, [], ◌∷◌, ◌++◌, map, any, find, ◌==◌, ℕ, ℤ, pos,
  ◌≤ℤ◌, Bool-cases, inl, inr, arith, if◌then◌else◌,
}
use go_finish_line_api.Text.{Text, text_eq}
use go_finish_line_api.Text.Laws.{text_eq_refl}
use go_finish_line_api.Civil.{Time, midnight}
use go_finish_line_api.Apperr.{ok}
use go_finish_line_api.Race.Entity.{Race, new_race}
use go_finish_line_api.Race.Repository
use go_finish_line_api.Race.Service
use go_finish_line_api.Store.{Db, row, World, call}

abbrev same : Race → Race → Bool
same r old = text_eq old.document_id r.document_id

-- The columns that a sync writes; the one of the date has no time of day.
pub record IsSynced (sent found : Race) : Type 0 where
  pub name : found.name ≡ sent.name
  pub date : found.date ≡ midnight sent.date.date
  pub capacity : found.capacity ≡ sent.capacity

-- What a statement of the sync leaves under the document id.
abbrev Holds : Race → List Race → Type 0
Holds r races = (q : Race) × ((find (same r) races ≡ some q) × IsSynced r q)

refreshed-Holds :
    (r : Race) (races : List Race)
    → any (same r) races ≡ true
    → Holds r (
        map (λ old. if same r old then Repository.refresh (Repository.stored r) old else old) races)
refreshed-Holds r [] h = absurd (ground arith)
refreshed-Holds r (old ∷ races) h = elim (Bool-cases (same r old)) [
  | inl hit ↦ rw hit (
      rw hit (
        Repository.refresh (Repository.stored r) old,
        (refl, record { name = refl; date = refl; capacity = refl }),
      ))
  | inr miss ↦ rw miss (rw miss (refreshed-Holds r races (ground (arith, h, miss))))
]

appended-Holds :
    (r : Race) (races : List Race)
    → any (same r) races ≡ false
    → Holds r (races ++ Repository.stored r ∷ [])
appended-Holds r [] h =
    rw (text_eq_refl r.document_id)
      (Repository.stored r, (refl, record { name = refl; date = refl; capacity = refl }))
appended-Holds r (old ∷ races) h = elim (Bool-cases (same r old)) [
  | inl hit ↦ absurd (ground (arith, h, hit))
  | inr miss ↦ rw miss (appended-Holds r races (ground (arith, h, miss)))
]

-- The upsert of a race with a new id and a capacity that its column holds is not refused.
upsert-Holds :
    (r : Race) (db : Db)
    → Repository.fits_integer r.capacity ≡ true
    → any (λ old. old.id == r.id) db.races ≡ false
    → (db' : Db) × ((Repository.upsert_sql r db ≡ (row tt, db')) × Holds r db'.races)
unfolding Repository.upsert_sql Repository.upsert_columns
upsert-Holds r db fits free = rw fits (elim (Bool-cases (any (same r) db.races)) [
  | inl known ↦ rw known (
    record db {
      races =
          map (λ old. if same r old then Repository.refresh (Repository.stored r) old else old)
            db.races;
    },
    (refl, refreshed-Holds r db.races known),
  )
  | inr new ↦
      rw (new, free)
        (
          record db { races = db.races ++ Repository.stored r ∷ [] },
          (refl, appended-Holds r db.races new),
        )
])

new_race-fits :
    (id : ℕ) (now : Time) (document_id name : Text) (date : Time) (capacity : ℤ) (r : Race)
    → new_race id now document_id name date capacity ≡ ok r
    → capacity ≤ℤ pos 2147483647
    → Repository.fits_integer r.capacity ≡ true
unfolding new_race
new_race-fits id now document_id name date capacity r valid small = ground arith

sync_run :
    (document_id name : Text) (date : Time) (capacity : ℤ) (w : World) (r q : Race) (db' : Db)
    → w.script ≡ []
    → new_race (w.ids w.drawn) (w.clock w.ticks) document_id name date capacity ≡ ok r
    → Repository.upsert_sql r w.db ≡ (row tt, db')
    → find (same r) db'.races ≡ some q
    → Service.sync document_id name date capacity w
      ≡ (ok q, record w { db = db'; script = []; ticks = w.ticks + 1; drawn = w.drawn + 1 })
unfolding Service.sync Repository.upsert call
sync_run document_id name date capacity w r q db' quiet valid written found = ground arith

lookup_run :
    (document_id : Text) (w : World) (q : Race)
    → w.script ≡ []
    → find (λ old. text_eq old.document_id document_id) w.db.races ≡ some q
    → Service.by_document_id document_id w ≡ (ok q, w)
unfolding Service.by_document_id Repository.by_document_id call
lookup_run document_id w q quiet found = ground arith

-- With no other session at work, a sync that the domain accepts, of a capacity that an integer column
-- holds and under an id that no race has, succeeds, and the lookup that a registration makes by the
-- document id then returns the race that the sync returned, with the name and the capacity that were
-- sent and the day of the date, at midnight.
pub sync-by_document_id :
    (document_id name : Text) (date : Time) (capacity : ℤ) (w : World) (r : Race)
    → w.script ≡ []
    → new_race (w.ids w.drawn) (w.clock w.ticks) document_id name date capacity ≡ ok r
    → capacity ≤ℤ pos 2147483647
    → any (λ old. old.id == r.id) w.db.races ≡ false
    → (q : Race) × (v : World) × (Service.sync document_id name date capacity w ≡ (ok q, v))
      × (Service.by_document_id r.document_id v ≡ (ok q, v))
      × IsSynced r q
sync-by_document_id document_id name date capacity w r quiet valid small free =
    let fits = new_race-fits _ _ document_id name date capacity r valid small in
    let (db', (written, (q, (found, synced)))) = upsert-Holds r w.db fits free in
    let v = record w { db = db'; script = []; ticks = w.ticks + 1; drawn = w.drawn + 1 } in
    (
      q,
      v,
      sync_run document_id name date capacity w r q db' quiet valid written found,
      lookup_run r.document_id v q refl found,
      synced,
    )
