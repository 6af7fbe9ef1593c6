-- ===== src/Tests/Accounts.antt =====
-- The account that is made sure of on a start.
use go_finish_line_api.Prelude.{◌≡◌, refl}
use go_finish_line_api.Text.{codes, text_eq, citext_eq, to_lower, trim_space, byte_len}
use go_finish_line_api.Apperr.{ok}
use go_finish_line_api.Auth.Security.{hash_password}
use go_finish_line_api.User.Entity.{validate_password, normalize_email, new_user}
use go_finish_line_api.User.Repository
use go_finish_line_api.User.Service.{ensure_admin}
use go_finish_line_api.User.Service.Admin.{HasAccount, ensure_admin-HasAccount}
use go_finish_line_api.Store.{call}
use go_finish_line_api.Tests.Data.{platform, library, world}

normal_admin :
    normalize_email platform (codes "admin@finishline.dev") ≡ ok (codes "admin@finishline.dev")
unfolding normalize_email to_lower trim_space
normal_admin = refl

admin_ensured :
    (ensure_admin platform library
      (codes "Admin")
      (codes "admin@finishline.dev")
      (codes "admin.123")
      world).0
    ≡ ok tt
unfolding ensure_admin validate_password byte_len hash_password new_user trim_space to_lower
    Repository.create call citext_eq text_eq
admin_ensured = refl

ensure_admin-HasAccount_example :
    HasAccount platform
      (codes "admin@finishline.dev")
      (ensure_admin platform library
        (codes "Admin")
        (codes "admin@finishline.dev")
        (codes "admin.123")
        world).1.db.users
ensure_admin-HasAccount_example =
    ensure_admin-HasAccount platform library (codes "Admin") (codes "admin@finishline.dev")
      (codes "admin.123") world (codes "admin@finishline.dev") refl normal_admin refl admin_ensured
