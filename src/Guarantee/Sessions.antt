-- ===== src/Guarantee/Sessions.antt =====
-- Sessions keep what their statements keep: login, refresh, logout and the guard.
use go_finish_line_api.Prelude.{ℕ, ◌+◌, Bool, true, false, some, ◌==◌, Bool-cases, inl, inr}
use go_finish_line_api.Text.{Text, Platform}
use go_finish_line_api.Civil.{Time, add}
use go_finish_line_api.Apperr.{
  app, wrap, AppError, token_reuse, Result, ok, err, is_refresh_token_not_found,
}
use go_finish_line_api.User.Entity.{User}
use go_finish_line_api.User.Repository as Users
use go_finish_line_api.Auth.Token.{RefreshToken, is_used, is_expired}
use go_finish_line_api.Auth.Library.{Library, or_fail}
use go_finish_line_api.Auth.Security.{verify}
use go_finish_line_api.Auth.Jwt.{issue}
use go_finish_line_api.Auth.Repository
use go_finish_line_api.Auth.Service
use go_finish_line_api.Auth.Service.{Settings, TokenPair, new_token}
use go_finish_line_api.Guarantee.Accounts
use go_finish_line_api.Guarantee.{
  Guarantee, IsKept, Kept, Keeps, call-Kept, first-Kept, here, Kept-trans, Kept-after, Keeps-bind,
  Keeps-on_err, time_now-Keeps, new_uuid-Keeps,
}
use go_finish_line_api.Store.{World, ◌>>=◌, pure, throw, lift, on_err, exec, time_now, new_uuid}

module _ (G : Guarantee) (k : IsKept G) where
  create-Keeps : (t : RefreshToken) → Keeps G (Repository.create t)
  unfolding Repository.create
  create-Keeps t w s = call-Kept G k (Repository.insert_sql t) (k.token t) w s

  find_hash-Keeps : (hash : Text) → Keeps G (Repository.by_token_hash hash)
  unfolding Repository.by_token_hash
  find_hash-Keeps hash w s = call-Kept G k _ (first-Kept G k (λ db. db.refresh_tokens) _ _) w s

  mark_rotated-Keeps : (id : ℕ) → Keeps G (Repository.mark_rotated id)
  unfolding Repository.mark_rotated
  mark_rotated-Keeps id =
      Keeps-bind G k time_now
        (λ now. exec "marking refresh token rotated" (Repository.rotate_sql id now))
        (time_now-Keeps G k)
        (λ now w s. call-Kept G k (Repository.rotate_sql id now) (k.rotated id now) w s)

  revoke_family-Keeps : (id : ℕ) → Keeps G (Repository.revoke_family id)
  unfolding Repository.revoke_family
  revoke_family-Keeps id =
      let family = λ (t : RefreshToken). t.family_id == id in
      Keeps-bind G k time_now
        (λ now. exec "revoking token family" (Repository.revoke_sql family now))
        (time_now-Keeps G k)
        (λ now w s. call-Kept G k (Repository.revoke_sql family now) (k.revoked family now) w s)

  store_token-Keeps :
      (lib : Library) (s : Settings) (user_id family_id : ℕ) (access : Text × Time) (raw : Text)
      → Keeps G (Service.store_token lib s user_id family_id access raw)
  unfolding Service.store_token
  store_token-Keeps lib s user_id family_id access raw =
      let stored =
        λ (t : RefreshToken). on_err (wrap "storing refresh token") (Repository.create t) in
      let pair = λ (_ : Unit {0}).
        pure {A = TokenPair}
          (record { access_token = access.0; access_expires_at = access.1; refresh_token = raw }) in
      let token = λ (now : Time) (id : ℕ). new_token lib s id user_id family_id raw now in
      Keeps-bind G k time_now (λ now. new_uuid >>= λ id. stored (token now id) >>= pair)
        (time_now-Keeps G k)
        λ now.
          Keeps-bind G k new_uuid (λ id. stored (token now id) >>= pair) (new_uuid-Keeps G k)
            λ id.
              Keeps-bind G k (stored (token now id)) pair
                (Keeps-on_err G k _ (Repository.create (token now id))
                  (create-Keeps (token now id)))
                (λ _. here G k)

  issue-Keeps : (lib : Library) (s : Settings) (user_id : ℕ) → Keeps G (issue lib s.jwt user_id)
  unfolding issue
  issue-Keeps lib s user_id w h =
      let expires = add (w.clock w.ticks) s.jwt.ttl in
      Kept-after G k (λ (signed : Text). pure (signed, expires))
        (or_fail "signing token" (
          lib.sign s.jwt.secret (record {
            subject = lib.print_uuid user_id;
            issued_at = some (w.clock w.ticks);
            expires_at = some expires;
          })))
        w (time_now w).1 (record { kept = k.same w.db; trusts = h }) (λ signed _. here G k)

  generate_token-Keeps : (lib : Library) → Keeps G (Service.generate_token lib)
  unfolding Service.generate_token
  generate_token-Keeps lib w s = record { kept = k.same w.db; trusts = s }

  issue_token_pair-Keeps :
      (lib : Library) (s : Settings) (user_id family_id : ℕ)
      → Keeps G (Service.issue_token_pair lib s user_id family_id)
  unfolding Service.issue_token_pair
  issue_token_pair-Keeps lib s user_id family_id =
      let draw = on_err (wrap "generating refresh token") (Service.generate_token lib) in
      let stored = λ (access : Text × Time) (raw : Text).
        Service.store_token lib s user_id family_id access raw in
      Keeps-bind G k (on_err (wrap "issuing access token") (issue lib s.jwt user_id))
        (λ access. draw >>= stored access)
        (Keeps-on_err G k _ (issue lib s.jwt user_id) (issue-Keeps lib s user_id))
        λ access.
          Keeps-bind G k draw (stored access)
            (Keeps-on_err G k _ (Service.generate_token lib) (generate_token-Keeps lib))
            (store_token-Keeps lib s user_id family_id access)

  start_session-Keeps :
      (lib : Library) (s : Settings) (u : User) (good : Bool)
      → Keeps G (Service.start_session lib s u good)
  unfolding Service.start_session
  start_session-Keeps lib s u false = here G k
  start_session-Keeps lib s u true =
      Keeps-bind G k new_uuid (Service.issue_token_pair lib s u.id) (new_uuid-Keeps G k)
        (issue_token_pair-Keeps lib s u.id)

  pub login-Keeps :
      (pf : Platform) (lib : Library) (s : Settings) (email password : Text)
      → Keeps G (Service.login pf lib s email password)
  unfolding Service.login
  login-Keeps pf lib s email password =
      let check = λ (u : User).
        on_err (wrap "verifying password") (lift (verify lib password u.password_hash)) in
      Keeps-bind G k (on_err _ (Users.by_email pf email))
        (λ u. check u >>= Service.start_session lib s u)
        (Keeps-on_err G k _ (Users.by_email pf email) (Accounts.find_email-Keeps G k pf email))
        λ u.
          Keeps-bind G k (check u) (Service.start_session lib s u)
            (Keeps-on_err G k _ (lift (verify lib password u.password_hash)) (here G k))
            (start_session-Keeps lib s u)

  punish-Keeps : (rt : RefreshToken) → Keeps G (Service.punish rt)
  unfolding Service.punish
  punish-Keeps rt =
      Keeps-bind G k (on_err (wrap "revoking token family") (Repository.revoke_family rt.family_id))
        (λ _. throw {A = TokenPair} (app (AppError.auth token_reuse)))
        (Keeps-on_err G k _ (Repository.revoke_family rt.family_id)
          (revoke_family-Keeps rt.family_id))
        (λ _. here G k)

  rotate-Keeps :
      (lib : Library) (s : Settings) (rt : RefreshToken) → Keeps G (Service.rotate lib s rt)
  unfolding Service.rotate
  rotate-Keeps lib s rt =
      Keeps-bind G k (on_err (wrap "rotating refresh token") (Repository.mark_rotated rt.id))
        (λ _. Service.issue_token_pair lib s rt.user_id rt.family_id)
        (Keeps-on_err G k _ (Repository.mark_rotated rt.id) (mark_rotated-Keeps rt.id))
        (λ _. issue_token_pair-Keeps lib s rt.user_id rt.family_id)

  exchange-Keeps :
      (lib : Library) (s : Settings) (rt : RefreshToken) → Keeps G (Service.exchange lib s rt)
  unfolding Service.exchange
  exchange-Keeps lib s rt w h = elim (Bool-cases (is_used rt)) [
    | inl used ↦ rw used (punish-Keeps rt w h)
    | inr fresh ↦ elim (Bool-cases (is_expired rt (w.clock w.ticks))) [
      | inl old ↦ rw (fresh, old) (record { kept = k.same w.db; trusts = h })
      | inr good ↦
          rw (fresh, good)
            (let rest = rotate-Keeps lib s rt (record w { ticks = w.ticks + 1 }) h in
              record { kept = rest.kept; trusts = rest.trusts })
    ]
  ]

  pub refresh-Keeps :
      (lib : Library) (s : Settings) (raw : Text) → Keeps G (Service.refresh lib s raw)
  unfolding Service.refresh
  refresh-Keeps lib s raw =
      let hash = lib.sha256_hex raw in
      Keeps-bind G k (on_err _ (Repository.by_token_hash hash)) (Service.exchange lib s)
        (Keeps-on_err G k _ (Repository.by_token_hash hash) (find_hash-Keeps hash))
        (exchange-Keeps lib s)

  settle_logout-Kept :
      (w v : World) (found : Result RefreshToken)
      → Kept G w v
      → Kept G w (Service.settle_logout found v).1
  settle_logout-Kept w v (ok rt) h = Kept-trans G k w v _ h (
      Keeps-on_err G k _ (Repository.revoke_family rt.family_id) (revoke_family-Keeps rt.family_id)
        v h.trusts)
  settle_logout-Kept w v (err e) h = elim (Bool-cases (is_refresh_token_not_found e)) [
    | inl gone ↦ rw gone h
    | inr other ↦ rw other h
  ]

  pub logout-Keeps : (lib : Library) (raw : Text) → Keeps G (Service.logout lib raw)
  unfolding Service.logout
  logout-Keeps lib raw w s =
      let hash = lib.sha256_hex raw in
      settle_logout-Kept w (Repository.by_token_hash hash w).1 (Repository.by_token_hash hash w).0
        (find_hash-Keeps hash w s)

  pub authenticate-Keeps :
      (lib : Library) (s : Settings) (token : Text) → Keeps G (Service.authenticate lib s token)
  unfolding Service.authenticate
  authenticate-Keeps lib s token w h = record { kept = k.same w.db; trusts = h }
