-- ===== src/User/Entity.antt =====
-- internal/user/domain/user.go: an account, its validated construction and the password policy.
use go_finish_line_api.Prelude.{ℕ, ltb, if◌then◌else◌}
use go_finish_line_api.Text.{Text, is_empty, trim_space, to_lower, byte_len, Platform}
use go_finish_line_api.Civil.{Time}
use go_finish_line_api.Apperr.{
  UserError, password_too_short, password_too_long, password_hash_required, AppError, app, Result,
  ok, err, ◌>>=◌, ◌>>◌,
}

pub record User : Type 0 where
  pub id : ℕ
  pub name : Text
  pub email : Text
  pub password_hash : Text
  pub created_at : Time

abbrev pub fail {ℓ} : {A : Type ℓ} → UserError → Result A
fail e = err (app (AppError.user e))

unfoldable pub normalize_email : Platform → Text → Result Text
normalize_email pf email =
    let cleaned = to_lower pf (trim_space email) in
    if pf.is_address cleaned then ok cleaned else fail UserError.email_invalid

abbrev required : Text → UserError → Result (Unit {0})
required s e = if is_empty s then fail e else ok tt

-- `New`, with the drawn id and the time as arguments
unfoldable pub new_user :
    Platform → (id : ℕ) (now : Time) (name email password_hash : Text) → Result User
unfolding normalize_email
new_user pf id now name email password_hash = do
  let cleaned = trim_space name
  required cleaned UserError.name_required
  normalized ← normalize_email pf email
  required password_hash password_hash_required
  ok (record {
    id = id;
    name = cleaned;
    email = normalized;
    password_hash = password_hash;
    created_at = now;
  })

-- The bounds count bytes.
unfoldable pub validate_password : Text → Result (Unit {0})
validate_password plain =
    if ltb (byte_len plain) 8
    then fail password_too_short
    else if ltb 72 (byte_len plain)
    then fail password_too_long
    else ok tt
