-- ===== src/Guarantee/Races.antt =====
-- The race service keeps what its statements keep.
use go_finish_line_api.Prelude.{arith, ◌≡◌, ℕ, ℤ}
use go_finish_line_api.Text.{Text, text_eq}
use go_finish_line_api.Civil.{Time}
use go_finish_line_api.Apperr.{wrap, ok}
use go_finish_line_api.Race.Entity.{Race, new_race}
use go_finish_line_api.Race.Repository
use go_finish_line_api.Race.Service
use go_finish_line_api.Guarantee.{
  Guarantee, IsKept, Keeps, call-Kept, first-Kept, Kept-after, Keeps-bind, Keeps-on_err,
}
use go_finish_line_api.Store.{first, on_err, exec, time_now, new_uuid}

new_race-capacity :
    (id : ℕ) (now : Time) (document_id name : Text) (date : Time) (capacity : ℤ) (r : Race)
    → new_race id now document_id name date capacity ≡ ok r
    → r.capacity ≡ capacity
unfolding new_race
new_race-capacity id now document_id name date capacity r h = ground arith

module _ (G : Guarantee) (k : IsKept G) where
  find_slug-Keeps : (slug : Text) → Keeps G (Repository.by_document_id slug)
  unfolding Repository.by_document_id
  find_slug-Keeps slug w s = call-Kept G k _ (first-Kept G k (λ db. db.races) _ _) w s

  find_id-Keeps : (id : ℕ) → Keeps G (Repository.by_id id)
  unfolding Repository.by_id
  find_id-Keeps id w s = call-Kept G k _ (first-Kept G k (λ db. db.races) _ _) w s

  pub by_document_id-Keeps : (slug : Text) → Keeps G (Service.by_document_id slug)
  unfolding Service.by_document_id
  by_document_id-Keeps slug =
      Keeps-on_err G k _ (Repository.by_document_id slug) (find_slug-Keeps slug)

  pub by_id-Keeps : (id : ℕ) → Keeps G (Service.by_id id)
  unfolding Service.by_id
  by_id-Keeps id = Keeps-on_err G k _ (Repository.by_id id) (find_id-Keeps id)

  upsert-Keeps : (r : Race) → G.admits r → Keeps G (Repository.upsert r)
  unfolding Repository.upsert
  upsert-Keeps r admitted =
      let same = λ (old : Race). text_eq old.document_id r.document_id in
      let read = first (λ db. db.races) same (λ (old : Race). old) in
      Keeps-bind G k (exec "upserting race" (Repository.upsert_sql r))
        (λ _. exec "reloading upserted race" read)
        (λ w s. call-Kept G k (Repository.upsert_sql r) (λ db. k.race r db admitted) w s)
        (λ _ w s. call-Kept G k read (first-Kept G k (λ db. db.races) same _) w s)

  pub sync-Keeps :
      (document_id name : Text) (date : Time) (capacity : ℤ)
      → ((r : Race) → r.capacity ≡ capacity → G.admits r)
      → Keeps G (Service.sync document_id name date capacity)
  unfolding Service.sync
  sync-Keeps document_id name date capacity admitted w s =
      Kept-after G k (λ r. on_err (wrap "upserting race") (Repository.upsert r))
        (new_race (w.ids w.drawn) (w.clock w.ticks) document_id name date capacity) w
        (new_uuid (time_now w).1).1 (record { kept = k.same w.db; trusts = s })
        λ r made. Keeps-on_err G k _ (Repository.upsert r) (
          upsert-Keeps r (admitted r (new_race-capacity _ _ document_id name date capacity r made)))

  delete-Keeps : (slug : Text) → Keeps G (Repository.delete_by_document_id slug)
  unfolding Repository.delete_by_document_id
  delete-Keeps slug w s = call-Kept G k (Repository.delete_sql slug) (k.race_gone slug) w s

  pub remove-Keeps : (slug : Text) → Keeps G (Service.remove slug)
  unfolding Service.remove
  remove-Keeps slug = Keeps-on_err G k _ (Repository.delete_by_document_id slug) (delete-Keeps slug)

  find_all-Keeps : Keeps G Repository.list
  unfolding Repository.list
  find_all-Keeps w s = call-Kept G k _ k.same w s

  pub list-Keeps : Keeps G Service.list
  unfolding Service.list
  list-Keeps = Keeps-on_err G k _ Repository.list find_all-Keeps
