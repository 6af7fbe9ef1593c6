-- ===== src/User/Repository.antt =====
-- internal/user/adapters/postgres/repository.go, with the constraints of the table: unique ids and
-- e-mails (citext). The statements run on the domain's values; Schema has the rows.
use go_finish_line_api.Prelude.{ℕ, ◌||◌, List, [], ◌∷◌, ◌++◌, map, any, ◌==◌, if◌then◌else◌}
use go_finish_line_api.Sort.{sort_by}
use go_finish_line_api.Text.{Text, citext_eq, Platform}
use go_finish_line_api.Civil.{before}
use go_finish_line_api.Apperr.{Err, app, AppError, UserError, email_taken}
use go_finish_line_api.User.Entity.{User}
use go_finish_line_api.Store.{
  row, record_not_found, duplicated_key, Sql, Action, sql_error, query, exec, first,
}

abbrev not_found : Err
not_found = app (AppError.user UserError.not_found)

unfoldable pub insert_sql : Platform → User → Sql (Unit {0})
insert_sql pf u db =
    if any (λ old. old.id == u.id || citext_eq pf old.email u.email) db.users
    then (duplicated_key, db)
    else (row tt, record db { users = db.users ++ u ∷ [] })

unfoldable pub create : Platform → User → Action (Unit {0})
unfolding insert_sql
create pf u =
    query (app (AppError.user email_taken)) (sql_error "inserting user") "inserting user"
      (insert_sql pf u)

unfoldable pub by_id : ℕ → Action User
by_id id =
    query (sql_error "selecting user by id") not_found "selecting user by id"
      (first (λ db. db.users) (λ u. u.id == id) (λ u. u))

unfoldable pub by_email : Platform → Text → Action User
by_email pf email =
    query (sql_error "selecting user by email") not_found "selecting user by email"
      (first (λ db. db.users) (λ u. citext_eq pf u.email email) (λ u. u))

abbrev pub set_password : ℕ → Text → User → User
set_password id hash u = if u.id == id then record u { password_hash = hash } else u

-- `res.RowsAffected == 0` is the answer for a missing row.
unfoldable pub update_password_sql : ℕ → Text → Sql (Unit {0})
update_password_sql id hash db =
    if any (λ u. u.id == id) db.users
    then (row tt, record db { users = map (set_password id hash) db.users })
    else (record_not_found, db)

unfoldable pub update_password : ℕ → Text → Action (Unit {0})
unfolding update_password_sql
update_password id hash =
    query (sql_error "updating password") not_found "updating password"
      (update_password_sql id hash)

-- ORDER BY created_at DESC
unfoldable pub list : Action (List User)
unfolding sort_by before
list =
    exec "selecting users"
      λ db. (row (sort_by (λ a b. before b.created_at a.created_at) db.users), db)
