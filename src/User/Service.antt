-- ===== src/User/Service.antt =====
-- internal/user/service/service.go. The session revoker is the auth module's, as cmd/api/main.go
-- wires it.
pub mod Passwords
pub mod Admin
use go_finish_line_api.Prelude.{ℕ, ◌+◌, Bool, true, false, List, if◌then◌else◌}
use go_finish_line_api.Text.{Text, Platform}
use go_finish_line_api.Apperr.{
  Err, app, wrap, AppError, incorrect_password, Result, ok, err, is_email_taken,
}
use go_finish_line_api.Auth.Library.{Library}
use go_finish_line_api.Auth.Security.{hash_password, verify}
use go_finish_line_api.Auth.Repository as Tokens
use go_finish_line_api.User.Entity.{User, new_user, normalize_email, validate_password}
use go_finish_line_api.User.Repository
use go_finish_line_api.Store.{
  World, Action, ◌>>=◌, ◌>>◌, pure, throw, lift, on_err, time_now, new_uuid,
}

-- `(*Service).RevokeAllSessions` of the auth module
unfoldable pub revoke_all_sessions : ℕ → Action (Unit {0})
revoke_all_sessions id = on_err (wrap "revoking all sessions") (Tokens.revoke_all_for_user id)

unfoldable pub register : Platform → Library → (name email password : Text) → Action User
register pf lib name email password = do
  lift (validate_password password)
  hash ← on_err (wrap "hashing password") (hash_password lib password)
  id ← new_uuid
  now ← time_now
  u ← lift (new_user pf id now name email hash)
  on_err (wrap "creating user") (Repository.create pf u)
  pure u

abbrev settle_admin : Result User × World → Result (Unit {0}) × World
settle_admin (ok u, w) = (ok tt, w)
settle_admin (err e, w) =
    (if is_email_taken e then ok tt else err (wrap "ensuring admin user" e), w)

unfoldable pub ensure_admin : Platform → Library → (name email password : Text) → Action (Unit {0})
unfolding register is_email_taken
ensure_admin pf lib name email password w = settle_admin (register pf lib name email password w)

unfoldable pub by_email : Platform → Text → Action User
by_email pf email = do
  normalized ← lift (normalize_email pf email)
  on_err (wrap "getting user by email") (Repository.by_email pf normalized)

-- From the decision on the current password on.
unfoldable pub replace_password : Library → ℕ → (new_password : Text) → Bool → Action (Unit {0})
unfolding revoke_all_sessions
replace_password lib id new_password false = throw (app (AppError.user incorrect_password))
replace_password lib id new_password true = do
  lift (validate_password new_password)
  hash ← on_err (wrap "hashing new password") (hash_password lib new_password)
  on_err (wrap "updating password") (Repository.update_password id hash)
  on_err (wrap "revoking sessions after password change") (revoke_all_sessions id)

unfoldable pub change_password :
    Library → ℕ → (current_password new_password : Text) → Action (Unit {0})
unfolding replace_password
change_password lib id current_password new_password = do
  u ← on_err (wrap "getting user") (Repository.by_id id)
  good ←
      on_err (wrap "verifying current password")
        (lift (verify lib current_password u.password_hash))
  replace_password lib id new_password good

unfoldable pub by_id : ℕ → Action User
by_id id = on_err (wrap "getting user by id") (Repository.by_id id)

unfoldable pub list : Action (List User)
list = on_err (wrap "listing users") Repository.list
