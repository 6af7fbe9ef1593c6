-- ===== src/User/Service/Passwords.antt =====
-- A change of password.
use go_finish_line_api.Prelude.{
  ℕ, ◌≡◌, refl, sym, subst, ◌⊎◌, ◌≢◌, inl, inr, Bool, true, some, List, [], ◌∷◌, map, find, any,
  All, arith, Bool-cases, ◌==◌, ◌+◌,
}
use go_finish_line_api.Text.{Text}
use go_finish_line_api.Apperr.{ok}
use go_finish_line_api.User.Entity.{User, validate_password}
use go_finish_line_api.User.Repository
use go_finish_line_api.User.Repository.{set_password, update_password, update_password_sql}
use go_finish_line_api.User.Service.{change_password, replace_password, revoke_all_sessions}
use go_finish_line_api.Auth.Library.{Library, matches}
use go_finish_line_api.Auth.Security.{verify, hash_password}
use go_finish_line_api.Auth.Token.{RefreshToken}
use go_finish_line_api.Auth.Repository as Tokens
use go_finish_line_api.Auth.Repository.{revoke_row}
use go_finish_line_api.Auth.Service.Reuse.{AllRevoked, revoke_rows}
use go_finish_line_api.Store.{World, call}

abbrev pub of_user : ℕ → RefreshToken → Bool
of_user id t = t.user_id == id

-- No row of the user keeps another hash.
abbrev pub AllHashed : ℕ → Text → List User → Type 0
AllHashed id hash us = All (λ u. (u.id ≢ id) ⊎ (u.password_hash ≡ hash)) us

set_password-AllHashed :
    (id : ℕ) (hash : Text) (us : List User) → AllHashed id hash (map (set_password id hash) us)
set_password-AllHashed id hash [] = tt
set_password-AllHashed id hash (u ∷ us) = (
  elim (Bool-cases (u.id == id)) [
    | inl same ↦ rw same (inr refl)
    | inr other ↦ rw other (inl (ground arith))
  ],
  set_password-AllHashed id hash us,
)

find-any : {A : Type 0} (p : A → Bool) (xs : List A) (x : A) → find p xs ≡ some x → any p xs ≡ true
find-any p [] x h = absurd (ground arith)
find-any p (y ∷ xs) x h = ground (arith, find-any p xs x)

change_password_run :
    (lib : Library) (id : ℕ) (current_password new_password : Text) (w : World) (u : User)
    (hash : Text)
    → w.script ≡ []
    → find (λ q. q.id == id) w.db.users ≡ some u
    → lib.compare current_password u.password_hash ≡ matches
    → validate_password new_password ≡ ok tt
    → lib.bcrypt w.drawn new_password ≡ some hash
    → change_password lib id current_password new_password w ≡ (
      ok tt,
      record w {
        db = record w.db {
          users = map (set_password id hash) w.db.users;
          refresh_tokens = map (revoke_row (of_user id) (w.clock w.ticks)) w.db.refresh_tokens;
        };
        script = [];
        ticks = w.ticks + 1;
        drawn = w.drawn + 1;
      },
    )
unfolding change_password replace_password revoke_all_sessions Repository.by_id update_password
    update_password_sql Tokens.revoke_all_for_user Tokens.revoke_sql verify hash_password call
change_password_run lib id current_password new_password w u hash h e good policy hashed =
    ground (arith, find-any (λ q. q.id == id) w.db.users u e)

-- With no other session at work, a change with the right current password, to a password that the
-- policy accepts and bcrypt hashes, succeeds; then the user's rows hold the new hash, and none of
-- the user's refresh tokens is left that is not revoked.
pub change_password-ends_sessions :
    (lib : Library) (id : ℕ) (current_password new_password : Text) (w : World) (u : User)
    (hash : Text)
    → w.script ≡ []
    → find (λ q. q.id == id) w.db.users ≡ some u
    → lib.compare current_password u.password_hash ≡ matches
    → validate_password new_password ≡ ok tt
    → lib.bcrypt w.drawn new_password ≡ some hash
    → ((change_password lib id current_password new_password w).0 ≡ ok tt)
      × AllHashed id hash (change_password lib id current_password new_password w).1.db.users
      × AllRevoked
          (of_user id)
          (change_password lib id current_password new_password w).1.db.refresh_tokens
change_password-ends_sessions lib id current_password new_password w u hash h e good policy hashed =
    subst
      (λ out.
        (out.0 ≡ ok tt)
        × AllHashed id hash out.1.db.users
        × AllRevoked (of_user id) out.1.db.refresh_tokens)
      (sym
        (change_password_run lib id current_password new_password w u hash h e good policy hashed))
      (
        refl,
        set_password-AllHashed id hash w.db.users,
        revoke_rows (of_user id) (w.clock w.ticks) w.db.refresh_tokens (λ t r. refl),
      )
