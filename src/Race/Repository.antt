-- ===== src/Race/Repository.antt =====
-- internal/race/adapters/postgres/repository.go, with the constraints of the tables: a unique
-- document id, registrations that refer to a race and forbid its deletion, and the types of the columns
-- of the date and the capacity. The statements run on the domain's values; Schema has the rows.
use go_finish_line_api.Prelude.{
  ℕ, Bool, not, ◌&&◌, List, [], ◌∷◌, ◌++◌, map, any, select, ◌==◌, ℤ, pos, negsuc, leb_ℤ,
  if◌then◌else◌,
}
use go_finish_line_api.Sort.{sort_by}
use go_finish_line_api.Text.{Text, text_eq}
use go_finish_line_api.Civil.{before, midnight}
use go_finish_line_api.Apperr.{Err, app, AppError, RaceError}
use go_finish_line_api.Race.Entity.{Race}
use go_finish_line_api.Store.{
  row, duplicated_key, failed, Sql, Action, ◌>>◌, sql_error, query, exec, first,
}

-- `DoUpdates: nombre, fecha, capacidad, updated_at`
abbrev pub refresh : Race → Race → Race
refresh new old = record old {
  name = new.name;
  date = new.date;
  capacity = new.capacity;
  updated_at = new.updated_at;
}

-- What a column of type integer holds.
abbrev pub fits_integer : ℤ → Bool
fits_integer z = leb_ℤ (negsuc 2147483647) z && leb_ℤ z (pos 2147483647)

-- A column of type date keeps the day and no time of day.
abbrev pub stored : Race → Race
stored r = record r { date = midnight r.date.date }

-- INSERT … ON CONFLICT (document_id) DO UPDATE
unfoldable pub upsert_columns : Race → Sql (Unit {0})
upsert_columns r db =
    if any (λ old. text_eq old.document_id r.document_id) db.races
    then (
      row tt,
      record db {
        races =
            map (λ old. if text_eq old.document_id r.document_id then refresh r old else old)
              db.races;
      },
    )
    else if any (λ old. old.id == r.id) db.races
    then (duplicated_key, db)
    else (row tt, record db { races = db.races ++ r ∷ [] })

-- The statement, with `fecha` of type date and `capacidad` of type integer
unfoldable pub upsert_sql : Race → Sql (Unit {0})
unfolding upsert_columns
upsert_sql r db = if fits_integer r.capacity then upsert_columns (stored r) db else (failed, db)

unfoldable pub delete_sql : Text → Sql (Unit {0})
delete_sql document_id db =
    if any (λ r. text_eq r.document_id document_id && any (λ g. g.race_id == r.id) db.registrations)
      db.races
    then (failed, db)
    else (
      row tt,
      record db { races = select (λ r. not (text_eq r.document_id document_id)) db.races },
    )

abbrev not_found : Err
not_found = app (AppError.race RaceError.not_found)

-- `Upsert`: the row is read again, since on a conflict it keeps its id and creation time.
unfoldable pub upsert : Race → Action Race
unfolding upsert_sql
upsert r = do
  exec "upserting race" (upsert_sql r)
  exec "reloading upserted race"
      (first (λ db. db.races) (λ old. text_eq old.document_id r.document_id) (λ old. old))

unfoldable pub delete_by_document_id : Text → Action (Unit {0})
unfolding delete_sql
delete_by_document_id document_id = exec "deleting race" (delete_sql document_id)

unfoldable pub by_id : ℕ → Action Race
by_id id =
    query (sql_error "selecting race by id") not_found "selecting race by id"
      (first (λ db. db.races) (λ r. r.id == id) (λ r. r))

unfoldable pub by_document_id : Text → Action Race
by_document_id document_id =
    query (sql_error "selecting race by document id") not_found "selecting race by document id"
      (first (λ db. db.races) (λ r. text_eq r.document_id document_id) (λ r. r))

abbrev pub earlier : Race → Race → Bool
earlier a b = before a.date b.date

-- `Order("fecha ASC")`; races of one date keep the order of the table.
unfoldable pub list : Action (List Race)
unfolding sort_by
list = exec "selecting races" (λ db. (row (sort_by earlier db.races), db))
