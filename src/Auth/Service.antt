-- ===== src/Auth/Service.antt =====
-- internal/auth/service/service.go: login, rotation of refresh tokens, logout and authentication.
-- The user finder is the user module's repository, as cmd/api/main.go wires it.
pub mod Rotation
pub mod Race
pub mod Reuse
pub mod Login
pub mod Opened
use go_finish_line_api.Prelude.{ℕ, ◌+◌, Bool, true, false, none, if◌then◌else◌}
use go_finish_line_api.Text.{Text, Platform}
use go_finish_line_api.Civil.{Time, add}
use go_finish_line_api.Apperr.{
  Err, app, wrap, AppError, invalid_credentials, invalid_token, token_reuse, Result, ok, err,
  is_user_not_found, is_refresh_token_not_found,
}
use go_finish_line_api.User.Entity.{User}
use go_finish_line_api.User.Repository as Users
use go_finish_line_api.Auth.Token.{RefreshToken, Claims, is_used, is_expired}
use go_finish_line_api.Auth.Library.{Library, or_fail}
use go_finish_line_api.Auth.Security.{verify}
use go_finish_line_api.Auth.Jwt.{Jwt, issue, parse}
use go_finish_line_api.Auth.Repository
use go_finish_line_api.Store.{
  World, Action, ◌>>=◌, ◌>>◌, pure, throw, lift, on_err, time_now, new_uuid,
}

-- The service's settings: the token service and `refreshTTL`.
pub record Settings : Type 0 where
  pub jwt : Jwt
  pub refresh_ttl : ℕ

pub record TokenPair : Type 0 where
  pub access_token : Text
  pub access_expires_at : Time
  pub refresh_token : Text

-- `generateToken`
unfoldable pub generate_token : Library → Action Text
generate_token lib w =
    (or_fail "reading random bytes" (lib.random_text w.drawn), record w { drawn = w.drawn + 1 })

abbrev pub new_token :
    Library → Settings → (id user_id family_id : ℕ) → (raw : Text) → Time → RefreshToken
new_token lib s id user_id family_id raw now = record {
  id = id;
  user_id = user_id;
  family_id = family_id;
  token_hash = lib.sha256_hex raw;
  expires_at = add now s.refresh_ttl;
  rotated_at = none;
  revoked_at = none;
  created_at = now;
}

-- From the drawn raw token on.
unfoldable pub store_token :
    Library
    → Settings
    → (user_id family_id : ℕ) → (access : Text × Time) → (raw : Text) → Action TokenPair
store_token lib s user_id family_id access raw = do
  now ← time_now
  id ← new_uuid
  on_err (wrap "storing refresh token")
      (Repository.create (new_token lib s id user_id family_id raw now))
  pure (record { access_token = access.0; access_expires_at = access.1; refresh_token = raw })

unfoldable pub issue_token_pair : Library → Settings → (user_id family_id : ℕ) → Action TokenPair
unfolding issue generate_token store_token
issue_token_pair lib s user_id family_id = do
  access ← on_err (wrap "issuing access token") (issue lib s.jwt user_id)
  raw ← on_err (wrap "generating refresh token") (generate_token lib)
  store_token lib s user_id family_id access raw

abbrev hide_missing : Err → Err
hide_missing e =
    if is_user_not_found e then app (AppError.auth invalid_credentials) else wrap "finding user" e

-- From the comparison of the password on.
unfoldable pub start_session : Library → Settings → User → Bool → Action TokenPair
unfolding issue_token_pair
start_session lib s u false = throw (app (AppError.auth invalid_credentials))
start_session lib s u true = do family_id ← new_uuid; issue_token_pair lib s u.id family_id

unfoldable pub login : Platform → Library → Settings → (email password : Text) → Action TokenPair
unfolding start_session is_user_not_found
login pf lib s email password = do
  u ← on_err hide_missing (Users.by_email pf email)
  good ← on_err (wrap "verifying password") (lift (verify lib password u.password_hash))
  start_session lib s u good

-- The family goes, and the call fails.
unfoldable pub punish : RefreshToken → Action TokenPair
punish rt = do
  on_err (wrap "revoking token family") (Repository.revoke_family rt.family_id)
  throw (app (AppError.auth token_reuse))

unfoldable pub rotate : Library → Settings → RefreshToken → Action TokenPair
unfolding issue_token_pair
rotate lib s rt = do
  on_err (wrap "rotating refresh token") (Repository.mark_rotated rt.id)
  issue_token_pair lib s rt.user_id rt.family_id

-- `time.Now()` is read where the token is not used.
unfoldable pub exchange : Library → Settings → RefreshToken → Action TokenPair
unfolding punish rotate
exchange lib s rt w =
    if is_used rt
    then punish rt w
    else if is_expired rt (w.clock w.ticks)
    then (err (app (AppError.auth invalid_token)), record w { ticks = w.ticks + 1 })
    else rotate lib s rt (record w { ticks = w.ticks + 1 })

abbrev hide_unknown : Err → Err
hide_unknown e =
    if is_refresh_token_not_found e
    then app (AppError.auth invalid_token)
    else wrap "looking up refresh token" e

unfoldable pub refresh : Library → Settings → (raw : Text) → Action TokenPair
unfolding exchange is_refresh_token_not_found
refresh lib s raw = do
  rt ← on_err hide_unknown (Repository.by_token_hash (lib.sha256_hex raw))
  exchange lib s rt

abbrev pub settle_logout : Result RefreshToken → Action (Unit {0})
settle_logout (ok rt) =
    on_err (wrap "revoking token family") (Repository.revoke_family rt.family_id)
settle_logout (err e) =
    if is_refresh_token_not_found e then pure tt else throw (wrap "looking up refresh token" e)

unfoldable pub logout : Library → (raw : Text) → Action (Unit {0})
unfolding is_refresh_token_not_found
logout lib raw w =
    let (found, w') = Repository.by_token_hash (lib.sha256_hex raw) w in settle_logout found w'

abbrev claimed_user : Result Claims → Result ℕ
claimed_user (ok c) = ok c.user_id
claimed_user (err e) = err (app (AppError.auth invalid_token))

unfoldable pub authenticate : Library → Settings → (access_token : Text) → Action ℕ
unfolding parse
authenticate lib s access_token = do
  now ← time_now
  lift (claimed_user (parse lib s.jwt now access_token))
