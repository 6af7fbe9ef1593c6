-- ===== src/Race/Service.antt =====
-- internal/race/service/service.go
pub mod Synced
use go_finish_line_api.Prelude.{ℕ, List, ℤ}
use go_finish_line_api.Text.{Text}
use go_finish_line_api.Civil.{Time}
use go_finish_line_api.Apperr.{wrap}
use go_finish_line_api.Race.Entity.{Race, new_race}
use go_finish_line_api.Race.Repository
use go_finish_line_api.Store.{Action, ◌>>=◌, lift, on_err, time_now, new_uuid}

unfoldable pub sync : (document_id name : Text) (date : Time) (capacity : ℤ) → Action Race
sync document_id name date capacity = do
  now ← time_now
  id ← new_uuid
  r ← lift (new_race id now document_id name date capacity)
  on_err (wrap "upserting race") (Repository.upsert r)

unfoldable pub remove : Text → Action (Unit {0})
remove document_id = on_err (wrap "deleting race") (Repository.delete_by_document_id document_id)

unfoldable pub by_id : ℕ → Action Race
by_id id = on_err (wrap "getting race by id") (Repository.by_id id)

unfoldable pub by_document_id : Text → Action Race
by_document_id document_id =
    on_err (wrap "getting race by document id") (Repository.by_document_id document_id)

unfoldable pub list : Action (List Race)
list = on_err (wrap "listing races") Repository.list
