-- ===== src/Auth/Service/Login.antt =====
-- What a login tells of the accounts.
use go_finish_line_api.Prelude.{◌≡◌, ◌∙◌, sym, Option, none, some, [], find, arith}
use go_finish_line_api.Text.{Text, citext_eq, Platform}
use go_finish_line_api.Apperr.{app, AppError, invalid_credentials, err, is_user_not_found, root}
use go_finish_line_api.User.Entity.{User}
use go_finish_line_api.User.Repository as Users
use go_finish_line_api.Auth.Library.{Library, mismatched}
use go_finish_line_api.Auth.Security.{verify}
use go_finish_line_api.Auth.Service.{Settings, login, start_session}
use go_finish_line_api.Store.{World, call}

abbrev pub account : Platform → Text → World → Option User
account pf email w = find (λ u. citext_eq pf u.email email) w.db.users

pub login_unknown :
    (pf : Platform) (lib : Library) (s : Settings) (email password : Text) (w : World)
    → w.script ≡ []
    → account pf email w ≡ none
    → login pf lib s email password w ≡ (err (app (AppError.auth invalid_credentials)), w)
unfolding login Users.by_email call is_user_not_found root
login_unknown pf lib s email password w h e = ground arith

pub login_mismatched :
    (pf : Platform) (lib : Library) (s : Settings) (email password : Text) (w : World) (u : User)
    → w.script ≡ []
    → account pf email w ≡ some u
    → lib.compare password u.password_hash ≡ mismatched
    → login pf lib s email password w ≡ (err (app (AppError.auth invalid_credentials)), w)
unfolding login Users.by_email call verify start_session
login_mismatched pf lib s email password w u h e k = ground arith

-- With no other session at work, an e-mail that no account has and a wrong password for an account
-- give one and the same answer, and change nothing.
pub login_indistinct :
    (pf : Platform) (lib : Library) (s : Settings) (unknown known password : Text) (w : World)
    (u : User)
    → w.script ≡ []
    → account pf unknown w ≡ none
    → account pf known w ≡ some u
    → lib.compare password u.password_hash ≡ mismatched
    → (login pf lib s unknown password w ≡ login pf lib s known password w)
      × (login pf lib s known password w ≡ (err (app (AppError.auth invalid_credentials)), w))
login_indistinct pf lib s unknown known password w u h e k mis =
    let wrong = login_mismatched pf lib s known password w u h k mis in
    (login_unknown pf lib s unknown password w h e ∙ sym wrong, wrong)
