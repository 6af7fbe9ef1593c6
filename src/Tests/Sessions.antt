-- ===== src/Tests/Sessions.antt =====
-- Sessions and passwords.
use go_finish_line_api.Prelude.{false, ◌≡◌, refl, true, none, some, [], ◌∷◌, find}
use go_finish_line_api.Text.{codes, text_eq, citext_eq, to_lower, byte_len}
use go_finish_line_api.Civil.{midnight, after}
use go_finish_line_api.Apperr.{AppError, app, err, ok, token_reuse, invalid_credentials}
use go_finish_line_api.User.Entity.{validate_password}
use go_finish_line_api.User.Service.{change_password}
use go_finish_line_api.User.Service.Passwords.{of_user, AllHashed, change_password-ends_sessions}
use go_finish_line_api.Auth.Token.{RefreshToken, is_used, is_expired}
use go_finish_line_api.Auth.Repository
use go_finish_line_api.Auth.Service.{TokenPair, refresh, exchange, login, issue_token_pair}
use go_finish_line_api.Auth.Service.Reuse.{AllRevoked, in_family, refresh_reused}
use go_finish_line_api.Auth.Service.Rotation.{refresh_once}
use go_finish_line_api.Auth.Service.Race.{overtaken, marked, refresh-overtaken}
use go_finish_line_api.Auth.Service.Login.{login_indistinct}
use go_finish_line_api.User.Entity.{User}
use go_finish_line_api.User.Repository as Users
use go_finish_line_api.Auth.Security.{verify}
use go_finish_line_api.Auth.Library.{matches}
use go_finish_line_api.Auth.Service.{start_session}
use go_finish_line_api.Auth.Service.Login.{account}
use go_finish_line_api.Auth.Service.Opened.{IsOpened, login-IsOpened}
use go_finish_line_api.Auth.Rest
use go_finish_line_api.Httpx.Request.{Request, post}
use go_finish_line_api.Store.{World, call}
use go_finish_line_api.Tests.Data.{
  platform, today, tables, world, library, settings, token_row, account_row,
}

abbrev used_row : RefreshToken
used_row = record token_row { rotated_at = some (midnight today) }

abbrev after_use : World
after_use = record world { db = record tables { refresh_tokens = used_row ∷ [] } }

raw_found : text_eq (codes "raw") (codes "raw") ≡ true
unfolding text_eq
raw_found = refl

used : is_used used_row ≡ true
unfolding is_used
used = refl

found_used : find (λ t. text_eq t.token_hash (codes "raw")) (used_row ∷ []) ≡ some used_row
found_used = rw raw_found refl

refresh_reused_example :
    ((refresh library settings (codes "raw") after_use).0 ≡ err (app (AppError.auth token_reuse)))
    × AllRevoked
        (in_family 1)
        (refresh library settings (codes "raw") after_use).1.db.refresh_tokens
refresh_reused_example =
    refresh_reused library settings (codes "raw") after_use used_row refl found_used used

found_new : find (λ t. text_eq t.token_hash (codes "raw")) (token_row ∷ []) ≡ some token_row
found_new = rw raw_found refl

abbrev the_pair : TokenPair
the_pair = record {
  access_token = 5 ∷ [];
  access_expires_at = record { date = today; nanos = 900 };
  refresh_token = b'r' ∷ 0 ∷ [];
}

abbrev rotated : World
rotated = record world {
  db = record tables {
    refresh_tokens =
        record token_row { rotated_at = some (midnight today) }
        ∷ record {
          id = 101;
          user_id = 5;
          family_id = 1;
          token_hash = b'r' ∷ 0 ∷ [];
          expires_at = record { date = today; nanos = 86400 };
          rotated_at = none;
          revoked_at = none;
          created_at = midnight today;
        }
        ∷ [];
  };
  ticks = 4;
  drawn = 2;
}

exchanged : refresh library settings (codes "raw") world ≡ (ok the_pair, rotated)
unfolding refresh exchange Repository.by_token_hash Repository.mark_rotated Repository.create
    is_used is_expired after call text_eq
exchanged = refl

refresh_once_example :
    ((refresh library settings (codes "raw") rotated).0 ≡ err (app (AppError.auth token_reuse)))
    × AllRevoked (in_family 1) (refresh library settings (codes "raw") rotated).1.db.refresh_tokens
refresh_once_example =
    refresh_once library settings (codes "raw") world rotated token_row the_pair refl found_new
      exchanged

still_valid : is_expired token_row (midnight today) ≡ false
unfolding is_expired after
still_valid = refl

-- The second session issues a pair as well.
refresh-overtaken_example :
    refresh library settings (codes "raw") (overtaken (record rotated { db = tables }) rotated.db)
    ≡ issue_token_pair library settings 5 1
        (marked (record rotated { db = tables }) rotated.db token_row)
refresh-overtaken_example =
    refresh-overtaken library settings (codes "raw") world rotated token_row the_pair refl found_new
      exchanged still_valid

abbrev opened_pair : TokenPair
opened_pair = record {
  access_token = 5 ∷ [];
  access_expires_at = record { date = today; nanos = 900 };
  refresh_token = b'r' ∷ 1 ∷ [];
}

opened :
    login platform library settings (codes "admin@example.com") (codes "right password") world ≡ (
      ok opened_pair,
      (login platform library settings
          (codes "admin@example.com")
          (codes "right password")
          world).1,
    )
unfolding login start_session Users.by_email call citext_eq text_eq to_lower verify
    Repository.create
opened = refl

login-IsOpened_example :
    (u : User) × (t : RefreshToken) × (account platform (codes "admin@example.com") world ≡ some u)
    × (library.compare (codes "right password") u.password_hash ≡ matches)
    × IsOpened u.id
        (b'r' ∷ 1 ∷ [])
        (login platform library settings
          (codes "admin@example.com")
          (codes "right password")
          world).1
        t
login-IsOpened_example =
    login-IsOpened platform library settings (codes "admin@example.com") (codes "right password")
      world _ opened_pair refl opened

abbrev cookie_request : Request
cookie_request = record {
  method = post;
  path = codes "auth" ∷ codes "refresh" ∷ [];
  query = [];
  authorization = [];
  service_secret = [];
  webhook_secret = [];
  refresh_cookie = some (codes "raw");
  client_ip = [];
  body = [];
}

accepted : validate_password (codes "a new password") ≡ ok tt
unfolding validate_password byte_len
accepted = refl

change_password-ends_sessions_example :
    ((change_password library 5 (codes "old one") (codes "a new password") world).0 ≡ ok tt)
    × AllHashed 5
        (codes "a new password")
        (change_password library 5 (codes "old one") (codes "a new password") world).1.db.users
    × AllRevoked
        (of_user 5)
        (change_password library 5
          (codes "old one")
          (codes "a new password")
          world).1.db.refresh_tokens
change_password-ends_sessions_example =
    change_password-ends_sessions library 5 (codes "old one") (codes "a new password") world
      account_row (codes "a new password") refl refl refl accepted refl

no_account : find (λ u. citext_eq platform u.email (codes "x@y")) (account_row ∷ []) ≡ none
unfolding citext_eq to_lower text_eq
no_account = refl

an_account :
    find (λ u. citext_eq platform u.email (codes "ADMIN@example.com")) (account_row ∷ [])
    ≡ some account_row
unfolding citext_eq to_lower text_eq
an_account = refl

login_indistinct_example :
    (login platform library settings (codes "x@y") [] world
      ≡ login platform library settings (codes "ADMIN@example.com") [] world)
    × (login platform library settings (codes "ADMIN@example.com") [] world
        ≡ (err (app (AppError.auth invalid_credentials)), world))
login_indistinct_example =
    login_indistinct platform library settings (codes "x@y") (codes "ADMIN@example.com") [] world
      account_row refl no_account an_account refl
