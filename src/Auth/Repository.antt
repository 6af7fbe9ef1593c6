-- ===== src/Auth/Repository.antt =====
-- internal/auth/adapters/postgres/repository.go, with the constraints of the table: unique ids and
-- token hashes, and tokens that refer to a user. The statements run on the domain's
-- values; Schema has the rows.
use go_finish_line_api.Prelude.{
  ℕ, Bool, not, ◌&&◌, ◌||◌, some, is_some, [], ◌∷◌, ◌++◌, map, any, ◌==◌, if◌then◌else◌,
}
use go_finish_line_api.Text.{Text, text_eq}
use go_finish_line_api.Civil.{Time}
use go_finish_line_api.Apperr.{signal, refresh_token_not_found}
use go_finish_line_api.Auth.Token.{RefreshToken}
use go_finish_line_api.Store.{
  row, duplicated_key, failed, Sql, Action, ◌>>=◌, time_now, sql_error, query, exec, first,
}

unfoldable pub insert_sql : RefreshToken → Sql (Unit {0})
unfolding text_eq
insert_sql t db =
    if any (λ old. old.id == t.id || text_eq old.token_hash t.token_hash) db.refresh_tokens
    then (duplicated_key, db)
    else if any (λ u. u.id == t.user_id) db.users
    then (row tt, record db { refresh_tokens = db.refresh_tokens ++ t ∷ [] })
    else (failed, db)

unfoldable pub create : RefreshToken → Action (Unit {0})
unfolding insert_sql
create t = exec "inserting refresh token" (insert_sql t)

unfoldable pub by_token_hash : Text → Action RefreshToken
unfolding text_eq
by_token_hash hash =
    query (sql_error "selecting refresh token") (signal refresh_token_not_found)
      "selecting refresh token"
      (first (λ db. db.refresh_tokens) (λ t. text_eq t.token_hash hash) (λ t. t))

abbrev pub rotate_row : ℕ → Time → RefreshToken → RefreshToken
rotate_row id now t = if t.id == id then record t { rotated_at = some now } else t

unfoldable pub rotate_sql : ℕ → Time → Sql (Unit {0})
rotate_sql id now db =
    (row tt, record db { refresh_tokens = map (rotate_row id now) db.refresh_tokens })

-- `MarkRotated`
unfoldable pub mark_rotated : ℕ → Action (Unit {0})
unfolding rotate_sql
mark_rotated id = do now ← time_now; exec "marking refresh token rotated" (rotate_sql id now)

abbrev pub revoke_row : (RefreshToken → Bool) → Time → RefreshToken → RefreshToken
revoke_row p now t =
    if p t && not (is_some t.revoked_at) then record t { revoked_at = some now } else t

-- UPDATE … SET revoked_at WHERE … AND revoked_at IS NULL
unfoldable pub revoke_sql : (RefreshToken → Bool) → Time → Sql (Unit {0})
revoke_sql p now db =
    (row tt, record db { refresh_tokens = map (revoke_row p now) db.refresh_tokens })

unfoldable pub revoke_family : ℕ → Action (Unit {0})
unfolding revoke_sql
revoke_family family_id = do
  now ← time_now
  exec "revoking token family" (revoke_sql (λ t. t.family_id == family_id) now)

unfoldable pub revoke_all_for_user : ℕ → Action (Unit {0})
unfolding revoke_sql
revoke_all_for_user user_id = do
  now ← time_now
  exec "revoking all user sessions" (revoke_sql (λ t. t.user_id == user_id) now)
