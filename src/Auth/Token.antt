-- ===== src/Auth/Token.antt =====
-- internal/auth/domain: refresh tokens and the claims of an access token.
use go_finish_line_api.Prelude.{ℕ, Bool, not, ◌&&◌, ◌||◌, Option, is_some}
use go_finish_line_api.Text.{Text}
use go_finish_line_api.Civil.{Time, after}

pub record RefreshToken : Type 0 where
  pub id : ℕ
  pub user_id : ℕ
  pub family_id : ℕ
  pub token_hash : Text
  pub expires_at : Time
  pub rotated_at : Option Time
  pub revoked_at : Option Time
  pub created_at : Time

unfoldable pub is_used : RefreshToken → Bool
is_used t = is_some t.rotated_at || is_some t.revoked_at

unfoldable pub is_expired : RefreshToken → Time → Bool
is_expired t now = after now t.expires_at

unfoldable pub is_active : RefreshToken → Time → Bool
unfolding is_used is_expired
is_active t now = not (is_used t) && not (is_expired t now)

pub record Claims : Type 0 where
  pub user_id : ℕ
  pub issued_at : Time
  pub expires_at : Time
