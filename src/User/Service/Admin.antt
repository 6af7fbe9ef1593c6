-- ===== src/User/Service/Admin.antt =====
-- The account that is made sure of on every start in development.
use go_finish_line_api.Prelude.{
  ℕ, ◌+◌, ◌≡◌, refl, sym, subst, true, false, ◌||◌, some, List, [], ◌∷◌, ◌++◌, any, ◌==◌, arith,
  Bool-cases, Option-cases, inl, inr,
}
use go_finish_line_api.Text.{Text, to_lower, citext_eq, Platform}
use go_finish_line_api.Text.Laws.{text_eq_refl}
use go_finish_line_api.Civil.{Time}
use go_finish_line_api.Apperr.{
  Err, Result, ok, err, wrap, signal, failure, is_email_taken, root, Result-cases,
}
use go_finish_line_api.Auth.Library.{Library}
use go_finish_line_api.Auth.Security.{hash_password}
use go_finish_line_api.User.Entity.{User, new_user, normalize_email, validate_password}
use go_finish_line_api.User.Repository.{insert_sql, create}
use go_finish_line_api.User.Service.{register, ensure_admin}
use go_finish_line_api.Store.{World, call}

-- An account has the e-mail.
abbrev pub HasAccount : Platform → Text → List User → Type 0
HasAccount pf email us = any (λ u. citext_eq pf u.email email) us ≡ true

HasAccount-new : (pf : Platform) (u : User) (us : List User) → HasAccount pf u.email (us ++ u ∷ [])
unfolding citext_eq
HasAccount-new pf u [] = ground (arith, text_eq_refl (to_lower pf u.email))
HasAccount-new pf u (old ∷ us) = ground (arith, HasAccount-new pf u us)

HasAccount-clash :
    (pf : Platform) (u : User) (us : List User)
    → any (λ old. old.id == u.id || citext_eq pf old.email u.email) us ≡ true
    → any (λ old. old.id == u.id) us ≡ false
    → HasAccount pf u.email us
HasAccount-clash pf u [] h free = absurd (ground arith)
HasAccount-clash pf u (old ∷ us) h free = ground (arith, HasAccount-clash pf u us, h, free)

-- The insertion leaves the account there, whether it was refused or not.
create-HasAccount :
    (pf : Platform) (u : User) (w : World)
    → w.script ≡ []
    → any (λ old. old.id == u.id) w.db.users ≡ false
    → HasAccount pf u.email (create pf u w).1.db.users
unfolding create insert_sql call
create-HasAccount pf u w quiet free =
    elim (Bool-cases (any (λ old. old.id == u.id || citext_eq pf old.email u.email) w.db.users)) [
      | inl clash ↦ ground (arith, quiet, HasAccount-clash pf u w.db.users clash free)
      | inr new ↦ ground (arith, quiet, HasAccount-new pf u w.db.users)
    ]

validate_password-other :
    (p : Text) (e : Err) → validate_password p ≡ err e → is_email_taken e ≡ false
unfolding validate_password is_email_taken root
validate_password-other p e h = ground (arith, h)

unhashed-other :
    is_email_taken (wrap "hashing password" (wrap "hashing password" (signal failure))) ≡ false
unfolding is_email_taken root
unhashed-other = refl

new_user-other :
    (pf : Platform) (id : ℕ) (now : Time) (name email hash : Text) (e : Err)
    → new_user pf id now name email hash ≡ err e
    → is_email_taken e ≡ false
unfolding new_user normalize_email is_email_taken root
new_user-other pf id now name email hash e h = ground (arith, h)

new_user-email :
    (pf : Platform) (id : ℕ) (now : Time) (name email hash n : Text) (u : User)
    → normalize_email pf email ≡ ok n
    → new_user pf id now name email hash ≡ ok u
    → (u.email ≡ n) × (u.id ≡ id)
unfolding new_user
new_user-email pf id now name email hash n u normal h =
    (ground (arith, h, normal), ground (arith, h))

module _ (pf : Platform) (lib : Library) (name email password : Text) (w : World) where
  -- What the draws and the clock are when the account is created.
  abbrev drawn_world : World
  drawn_world = record w { ticks = w.ticks + 1; drawn = w.drawn + 1 + 1 }

  abbrev built : Text → Result User
  built hash = new_user pf (w.ids (w.drawn + 1)) (w.clock w.ticks) name email hash

  ensure_admin_run :
      (hash : Text) (u : User)
      → validate_password password ≡ ok tt
      → lib.bcrypt w.drawn password ≡ some hash
      → built hash ≡ ok u
      → (ensure_admin pf lib name email password w).1 ≡ (create pf u drawn_world).1
  unfolding ensure_admin register hash_password
  ensure_admin_run hash u valid hashed made = elim (Result-cases (create pf u drawn_world).0) [
    | inl (a, good) ↦ ground (arith, valid, hashed, made, good)
    | inr (e, bad) ↦ ground (arith, valid, hashed, made, bad)
  ]

  -- With no other session at work, an e-mail that is valid and an id that no account has: if
  -- EnsureAdmin returns without an error, there is an account with the e-mail, whether it was there
  -- before or not.
  pub ensure_admin-HasAccount :
      (normalized : Text)
      → w.script ≡ []
      → normalize_email pf email ≡ ok normalized
      → any (λ old. old.id == w.ids (w.drawn + 1)) w.db.users ≡ false
      → (ensure_admin pf lib name email password w).0 ≡ ok tt
      → HasAccount pf normalized (ensure_admin pf lib name email password w).1.db.users
  unfolding ensure_admin register hash_password
  ensure_admin-HasAccount normalized quiet normal free done =
      elim (Result-cases (validate_password password)) [
        | inr (e, bad) ↦ absurd (ground (arith, done, bad, validate_password-other password e bad))
        | inl (_, valid) ↦ elim (Option-cases (lib.bcrypt w.drawn password)) [
          | inl lost ↦ absurd (ground (arith, done, valid, lost, unhashed-other))
          | inr (hash, hashed) ↦ elim (Result-cases (built hash)) [
            | inr (e, bad) ↦
                let other =
                  new_user-other pf (w.ids (w.drawn + 1)) (w.clock w.ticks) name email hash e bad in
                absurd (ground (arith, done, valid, hashed, bad, other))
            | inl (u, made) ↦
                let (mail, id) =
                  new_user-email pf (w.ids (w.drawn + 1)) (w.clock w.ticks) name email hash
                    normalized u normal made in
                rw (ensure_admin_run hash u valid hashed made, sym mail)
                  (create-HasAccount pf u drawn_world quiet
                    (subst (λ i. any (λ old. old.id == i) w.db.users ≡ false) (sym id) free))
          ]
        ]
      ]
