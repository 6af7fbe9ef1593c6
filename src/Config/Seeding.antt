-- ===== src/Config/Seeding.antt =====
-- The account that cmd/seed-admin leaves behind.
use go_finish_line_api.Prelude.{
  ◌+◌, ◌≡◌, subst, false, ◌||◌, any, ◌==◌, [], Bool-cases, inl, inr, arith,
}
use go_finish_line_api.Text.{Text, is_empty, Platform}
use go_finish_line_api.Apperr.{ok, is_email_taken, Result-cases}
use go_finish_line_api.Auth.Library.{Library}
use go_finish_line_api.User.Entity.{normalize_email}
use go_finish_line_api.User.Service
use go_finish_line_api.User.Service.Admin.{HasAccount, ensure_admin-HasAccount}
use go_finish_line_api.Config.{Environment, Loader, load}
use go_finish_line_api.Config.Connection.{UrlLibrary, Driver, dsn, connect}
use go_finish_line_api.Config.Startup.{Flags, settle_seed, seed_admin}
use go_finish_line_api.Store.{World}

-- Where the seeding settles for an account, so does EnsureAdmin, with the same tables.
settle_seed-ensure_admin :
    (pf : Platform) (lib : Library) (name email password : Text) (w : World)
    → (settle_seed (Service.register pf lib name email password w)).0 ≡ ok tt
    → ((Service.ensure_admin pf lib name email password w).0 ≡ ok tt)
      × ((Service.ensure_admin pf lib name email password w).1
          ≡ (settle_seed (Service.register pf lib name email password w)).1)
unfolding Service.ensure_admin
settle_seed-ensure_admin pf lib name email password w done =
    elim (Result-cases (Service.register pf lib name email password w).0) [
      | inl (u, made) ↦ (ground (arith, made), ground (arith, made))
      | inr (e, refused) ↦ elim (Bool-cases (is_email_taken e)) [
        | inl taken ↦ (ground (arith, refused, taken), ground (arith, refused, taken))
        | inr other ↦ absurd (ground (arith, done, refused, other))
      ]
    ]

-- What a seeding that succeeds has run.
seed_admin_run :
    (loader : Loader) (e : Environment) (urls : UrlLibrary) (driver : Driver) (pf : Platform)
    (lib : Library) (f : Flags) (w : World)
    → (seed_admin loader e urls driver pf lib f w).0 ≡ ok tt
    → seed_admin loader e urls driver pf lib f w
      ≡ settle_seed (Service.register pf lib f.name f.email f.password w)
unfolding seed_admin
seed_admin_run loader e urls driver pf lib f w done =
    elim (Bool-cases (is_empty f.name || is_empty f.email || is_empty f.password)) [
      | inl missing ↦ absurd (ground (arith, missing, done))
      | inr given ↦ elim (Result-cases (load loader e)) [
        | inr (x, bad) ↦ absurd (ground (arith, given, bad, done))
        | inl (c, loaded) ↦ elim (Result-cases (connect driver (dsn urls c.db))) [
          | inr (x, bad) ↦ absurd (ground (arith, given, loaded, bad, done))
          | inl (pool, good) ↦ ground (arith, given, loaded, good)
        ]
      ]
    ]

-- When the command reports no error, and no other session is at work, there is an account with the
-- e-mail of its flags.
pub seed_admin-HasAccount :
    (loader : Loader) (e : Environment) (urls : UrlLibrary) (driver : Driver) (pf : Platform)
    (lib : Library) (f : Flags) (w : World) (normalized : Text)
    → w.script ≡ []
    → normalize_email pf f.email ≡ ok normalized
    → any (λ old. old.id == w.ids (w.drawn + 1)) w.db.users ≡ false
    → (seed_admin loader e urls driver pf lib f w).0 ≡ ok tt
    → HasAccount pf normalized (seed_admin loader e urls driver pf lib f w).1.db.users
seed_admin-HasAccount loader e urls driver pf lib f w normalized quiet normal free done =
    let run = seed_admin_run loader e urls driver pf lib f w done in
    let settled = subst (λ out. out.0 ≡ ok tt) run done in
    let (fine, same) = settle_seed-ensure_admin pf lib f.name f.email f.password w settled in
    let there =
      ensure_admin-HasAccount pf lib f.name f.email f.password w normalized quiet normal free
        fine in
    rw run (subst (λ v. HasAccount pf normalized v.db.users) same there)
