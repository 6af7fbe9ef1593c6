-- ===== src/Guarantee/Accounts.antt =====
-- The user service keeps what its statements keep.
use go_finish_line_api.Prelude.{ℕ, Bool, true, false, ◌==◌}
use go_finish_line_api.Text.{Text, Platform}
use go_finish_line_api.Apperr.{wrap}
use go_finish_line_api.Auth.Library.{Library}
use go_finish_line_api.Auth.Security.{hash_password, verify}
use go_finish_line_api.Auth.Repository as Tokens
use go_finish_line_api.User.Entity.{User, new_user, normalize_email, validate_password}
use go_finish_line_api.User.Repository
use go_finish_line_api.User.Service
use go_finish_line_api.Guarantee.{
  Guarantee, IsKept, Keeps, call-Kept, first-Kept, here, Kept-after, Keeps-bind, Keeps-lift,
  Keeps-on_err, time_now-Keeps,
}
use go_finish_line_api.Store.{◌>>=◌, pure, lift, on_err, exec, time_now, new_uuid}

module _ (G : Guarantee) (k : IsKept G) where
  pub find_email-Keeps : (pf : Platform) (email : Text) → Keeps G (Repository.by_email pf email)
  unfolding Repository.by_email
  find_email-Keeps pf email w s = call-Kept G k _ (first-Kept G k (λ db. db.users) _ _) w s

  find_id-Keeps : (id : ℕ) → Keeps G (Repository.by_id id)
  unfolding Repository.by_id
  find_id-Keeps id w s = call-Kept G k _ (first-Kept G k (λ db. db.users) _ _) w s

  find_all-Keeps : Keeps G Repository.list
  unfolding Repository.list
  find_all-Keeps w s = call-Kept G k _ k.same w s

  create-Keeps : (pf : Platform) (u : User) → Keeps G (Repository.create pf u)
  unfolding Repository.create
  create-Keeps pf u w s = call-Kept G k (Repository.insert_sql pf u) (k.account pf u) w s

  update-Keeps : (id : ℕ) (hash : Text) → Keeps G (Repository.update_password id hash)
  unfolding Repository.update_password
  update-Keeps id hash w s =
      call-Kept G k (Repository.update_password_sql id hash) (k.password id hash) w s

  revoke_all-Keeps : (id : ℕ) → Keeps G (Tokens.revoke_all_for_user id)
  unfolding Tokens.revoke_all_for_user
  revoke_all-Keeps id =
      Keeps-bind G k time_now
        (λ now. exec "revoking all user sessions" (Tokens.revoke_sql (λ t. t.user_id == id) now))
        (time_now-Keeps G k)
        (λ now w s.
          call-Kept G k (Tokens.revoke_sql (λ t. t.user_id == id) now) (k.revoked _ now) w s)

  pub by_id-Keeps : (id : ℕ) → Keeps G (Service.by_id id)
  unfolding Service.by_id
  by_id-Keeps id = Keeps-on_err G k _ (Repository.by_id id) (find_id-Keeps id)

  pub list-Keeps : Keeps G Service.list
  unfolding Service.list
  list-Keeps = Keeps-on_err G k _ Repository.list find_all-Keeps

  pub by_email-Keeps : (pf : Platform) (email : Text) → Keeps G (Service.by_email pf email)
  unfolding Service.by_email
  by_email-Keeps pf email =
      let ask = λ (normalized : Text).
        on_err (wrap "getting user by email") (Repository.by_email pf normalized) in
      Keeps-lift G k (normalize_email pf email) ask λ normalized _.
        Keeps-on_err G k _ (Repository.by_email pf normalized) (find_email-Keeps pf normalized)

  -- From the hash on.
  add_user-Keeps :
      (pf : Platform) (name email hash : Text)
      → Keeps G (
          new_uuid >>= λ id. time_now >>= λ now. lift (new_user pf id now name email hash) >>= λ u.
          on_err (wrap "creating user") (Repository.create pf u) >>= λ _. pure u)
  add_user-Keeps pf name email hash w s =
      let create = λ (u : User). on_err (wrap "creating user") (Repository.create pf u) in
      Kept-after G k (λ u. create u >>= λ _. pure u)
        (new_user pf (w.ids w.drawn) (w.clock w.ticks) name email hash) w
        (time_now (new_uuid w).1).1 (record { kept = k.same w.db; trusts = s })
        (λ u _.
          Keeps-bind G k (create u) (λ _. pure u)
            (Keeps-on_err G k _ (Repository.create pf u) (create-Keeps pf u)) (λ _. here G k))

  hash_password-Keeps : (lib : Library) (password : Text) → Keeps G (hash_password lib password)
  unfolding hash_password
  hash_password-Keeps lib password w s = record { kept = k.same w.db; trusts = s }

  pub register-Keeps :
      (pf : Platform) (lib : Library) (name email password : Text)
      → Keeps G (Service.register pf lib name email password)
  unfolding Service.register
  register-Keeps pf lib name email password =
      let add = λ (hash : Text). new_uuid >>= λ id. time_now >>= λ now.
      lift (new_user pf id now name email hash) >>= λ u.
      on_err (wrap "creating user") (Repository.create pf u) >>= λ _. pure u in
      let hashed = on_err (wrap "hashing password") (hash_password lib password) in
      Keeps-lift G k (validate_password password) (λ _. hashed >>= add)
        λ _ _.
          Keeps-bind G k hashed add
            (Keeps-on_err G k _ (hash_password lib password) (hash_password-Keeps lib password))
            (add_user-Keeps pf name email)

  revoke_all_sessions-Keeps : (id : ℕ) → Keeps G (Service.revoke_all_sessions id)
  unfolding Service.revoke_all_sessions
  revoke_all_sessions-Keeps id =
      Keeps-on_err G k _ (Tokens.revoke_all_for_user id) (revoke_all-Keeps id)

  replace_password-Keeps :
      (lib : Library) (id : ℕ) (new_password : Text) (good : Bool)
      → Keeps G (Service.replace_password lib id new_password good)
  unfolding Service.replace_password
  replace_password-Keeps lib id new_password false = here G k
  replace_password-Keeps lib id new_password true =
      let hashed = on_err (wrap "hashing new password") (hash_password lib new_password) in
      let update =
        λ (hash : Text). on_err (wrap "updating password") (Repository.update_password id hash) in
      let revoke =
        on_err (wrap "revoking sessions after password change") (Service.revoke_all_sessions id) in
      Keeps-lift G k (validate_password new_password)
        (λ _. hashed >>= λ hash. update hash >>= λ _. revoke)
        λ _ _.
          Keeps-bind G k hashed (λ hash. update hash >>= λ _. revoke)
            (Keeps-on_err G k _ (hash_password lib new_password)
              (hash_password-Keeps lib new_password))
            λ hash.
              Keeps-bind G k (update hash) (λ _. revoke)
                (Keeps-on_err G k _ (Repository.update_password id hash) (update-Keeps id hash))
                λ _.
                  Keeps-on_err G k _ (Service.revoke_all_sessions id) (revoke_all_sessions-Keeps id)

  pub change_password-Keeps :
      (lib : Library) (id : ℕ) (current_password new_password : Text)
      → Keeps G (Service.change_password lib id current_password new_password)
  unfolding Service.change_password
  change_password-Keeps lib id current_password new_password =
      let check = λ (u : User).
        on_err (wrap "verifying current password")
          (lift (verify lib current_password u.password_hash)) in
      Keeps-bind G k (on_err (wrap "getting user") (Repository.by_id id))
        (λ u. check u >>= Service.replace_password lib id new_password)
        (Keeps-on_err G k _ (Repository.by_id id) (find_id-Keeps id))
        λ u.
          Keeps-bind G k (check u) (Service.replace_password lib id new_password)
            (Keeps-on_err G k _ (lift (verify lib current_password u.password_hash)) (here G k))
            (replace_password-Keeps lib id new_password)
