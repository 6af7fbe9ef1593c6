-- ===== src/Api/Requests.antt =====
-- What all the requests of the program keep, in any order and between the statements of others.
use go_finish_line_api.Prelude.{
  All, ◌≡◌, ℕ, ◌+◌, some, List, [], ◌∷◌, Bool-cases, Option-cases, inl, inr,
}
use go_finish_line_api.Participant.Repository.Sound.{IsSound}
use go_finish_line_api.Httpx.Request.{Request}
use go_finish_line_api.Httpx.{Response}
use go_finish_line_api.Auth.Middleware.{require_auth}
use go_finish_line_api.User.Rest as UserRest
use go_finish_line_api.Race.Rest as RaceRest
use go_finish_line_api.Participant.Rest as ParticipantRest
use go_finish_line_api.Report.Rest as ReportRest
use go_finish_line_api.Api.Routes.{
  Route, login, refresh, logout, sanity_webhook, list_races, register, list_registrations,
  registrations_timeline, referral_sources, shirt_sizes, list_participants, create_user, list_users,
  me, change_password, user_by_id, find_route,
}
use go_finish_line_api.Api.{reports, Server, dispatch, serve, handle, handle_all}
use go_finish_line_api.RateLimit.{Process, per_ip, allow_ip}
use go_finish_line_api.Guarantee.{Guarantee, keeping, IsKept, Trusts, Kept, Keeps, here, Kept-trans}
use go_finish_line_api.Guarantee.Entries
use go_finish_line_api.Guarantee.Entries.{entry_at, Lasts, Lasts-IsKept}
use go_finish_line_api.Participant.Registration.{Registration}
use go_finish_line_api.Guarantee.Handlers
use go_finish_line_api.Guarantee.Dashboard
use go_finish_line_api.Guarantee.Reports.{Reads, report_repository-Reads}
use go_finish_line_api.Guarantee.Registrations
use go_finish_line_api.Participant.Service
use go_finish_line_api.Participant.Service.{RegisterInput}
use go_finish_line_api.Text.{Platform}
use go_finish_line_api.Guarantee.Soundness.{Sound, Sound-IsKept, Sound-Enters}
use go_finish_line_api.Guarantee.Tokens.{Aged, Aged-IsKept, Aged-Enters}
use go_finish_line_api.Store.{Db, World}

module _ {Limit Limiter : Type 0} (srv : Server Limit Limiter) (G : Guarantee) (k : IsKept G)
    (registers : (pf : Platform) (input : RegisterInput)
      → Keeps G (Service.register pf input)) where
  behind-Keeps :
      {A : Type 0} (r : Request) (next : ℕ → World → Response A × World)
      → ((id : ℕ) → Keeps G (next id))
      → Keeps G (require_auth srv.library srv.settings r.authorization next)
  behind-Keeps r next h =
      Handlers.require_auth-Keeps G k srv.library srv.settings r.authorization next h

  reports-Reads : Reads G (reports srv)
  reports-Reads = report_repository-Reads G k srv.collation

  -- The races that a request syncs are admitted.
  abbrev pub Asks : Request → Type 0
  Asks r = Handlers.Syncs G srv.decode_webhook r

  pub dispatch-Keeps : (route : Route) (r : Request) → Asks r → Keeps G (dispatch srv route r)
  unfolding dispatch
  dispatch-Keeps login r asks w t =
      Handlers.login-Keeps G k srv.platform srv.library srv.settings srv.secure_cookie
        srv.decode_login r w t
  dispatch-Keeps refresh r asks w t =
      Handlers.refresh-Keeps G k srv.library srv.settings srv.secure_cookie r w t
  dispatch-Keeps logout r asks w t = Handlers.logout-Keeps G k srv.library srv.secure_cookie r w t
  dispatch-Keeps sanity_webhook r asks w t =
      Handlers.handle_webhook-Keeps G k srv.rfc3339 srv.decode_webhook srv.webhook_secret r asks w t
  dispatch-Keeps list_races r asks w t =
      behind-Keeps r (λ _. RaceRest.handle_list) (λ _. Handlers.handle_list-Keeps G k) w t
  dispatch-Keeps register r asks w t =
      Handlers.register-Keeps G k srv.platform srv.decode_registration srv.service_secret r
        (registers srv.platform) w t
  dispatch-Keeps list_registrations r asks w t =
      behind-Keeps r (λ _. ParticipantRest.list_by_race srv.library r)
        (λ _. Handlers.list_by_race-Keeps G k srv.library r) w t
  dispatch-Keeps registrations_timeline r asks w t =
      behind-Keeps r (λ _. ReportRest.registrations_timeline srv.library (reports srv) r)
        (λ _. Dashboard.registrations_timeline-Keeps G k (reports srv) reports-Reads srv.library r)
        w t
  dispatch-Keeps referral_sources r asks w t =
      behind-Keeps r (λ _. ReportRest.referral_sources srv.library (reports srv) r)
        (λ _. Dashboard.referral_sources-Keeps G k (reports srv) reports-Reads srv.library r) w t
  dispatch-Keeps shirt_sizes r asks w t =
      behind-Keeps r (λ _. ReportRest.shirt_sizes srv.library (reports srv) r)
        (λ _. Dashboard.shirt_sizes-Keeps G k (reports srv) reports-Reads srv.library r) w t
  dispatch-Keeps list_participants r asks w t =
      behind-Keeps r (λ _. ReportRest.participants srv.platform srv.library (reports srv) r)
        (λ _.
          Dashboard.participants-Keeps G k (reports srv) reports-Reads srv.platform srv.library r)
        w t
  dispatch-Keeps create_user r asks w t =
      behind-Keeps r (λ _. UserRest.create srv.platform srv.library srv.decode_user r)
        (λ _. Handlers.create-Keeps G k srv.platform srv.library srv.decode_user r) w t
  dispatch-Keeps list_users r asks w t =
      behind-Keeps r (λ _. UserRest.list srv.platform r)
        (λ _. Handlers.list-Keeps G k srv.platform r) w t
  dispatch-Keeps me r asks w t =
      behind-Keeps r (λ id. UserRest.me (some id)) (λ id. Handlers.me-Keeps G k id) w t
  dispatch-Keeps change_password r asks w t =
      behind-Keeps r (λ id. UserRest.change_password srv.library srv.decode_password (some id) r)
        (λ id. Handlers.change_password-Keeps G k srv.library srv.decode_password id r) w t
  dispatch-Keeps (user_by_id raw_id) r asks w t =
      behind-Keeps r (λ _. UserRest.by_id srv.library raw_id)
        (λ _. Handlers.by_id-Keeps G k srv.library raw_id) w t

  limited-Kept :
      (r : Request) (p : Process Limit Limiter)
      → Asks r
      → Trusts G p.world.script
      → Kept G p.world (serve srv login r p).1.world
  unfolding serve per_ip
  limited-Kept r p asks t =
      let w = record p.world { ticks = p.world.ticks + 1 } in
      elim (Bool-cases (allow_ip srv.rate (p.world.clock p.world.ticks) r.client_ip p.store).0) [
        | inl allowed ↦ rw allowed (
            let rest = dispatch-Keeps login r asks w t in
            record { kept = rest.kept; trusts = rest.trusts })
        | inr refused ↦ rw refused (record { kept = k.same p.world.db; trusts = t })
      ]

  pub serve-Kept :
      (route : Route) (r : Request) (p : Process Limit Limiter)
      → Asks r
      → Trusts G p.world.script
      → Kept G p.world (serve srv route r p).1.world
  unfolding serve
  serve-Kept login r p asks t = limited-Kept r p asks t
  serve-Kept route r p asks t = dispatch-Keeps route r asks p.world t

  pub handle-Kept :
      (r : Request) (p : Process Limit Limiter)
      → Asks r
      → Trusts G p.world.script
      → Kept G p.world (handle srv r p).1.world
  unfolding handle
  handle-Kept r p asks t = elim (Option-cases (find_route r)) [
    | inl nowhere ↦ rw (nowhere, handle) (here G k p.world t)
    | inr (route, found) ↦ rw (found, handle) (serve-Kept route r p asks t)
  ]

  pub handle_all-Kept :
      (rs : List Request) (p : Process Limit Limiter)
      → All Asks rs
      → Trusts G p.world.script
      → Kept G p.world (handle_all srv rs p).1.world
  unfolding handle_all
  handle_all-Kept [] p asks t = here G k p.world t
  handle_all-Kept (r ∷ rs) p (ask, asks) t =
      let first = handle-Kept r p ask t in
      let next = (handle srv r p).1 in
      Kept-trans G k p.world next.world (handle_all srv rs next).1.world first
        (handle_all-Kept rs next asks first.trusts)

keeping-Asks :
    {Limit Limiter : Type 0} (srv : Server Limit Limiter) (R : Db → Db → Type 0) (rs : List Request)
    → All (λ r. Handlers.Syncs (keeping R) srv.decode_webhook r) rs
keeping-Asks srv R [] = tt
keeping-Asks srv R (r ∷ rs) = (λ p bound race same. tt, keeping-Asks srv R rs)

-- Whatever requests come and in whatever order, if the tables are sound and the other sessions keep
-- them so, they are sound after the last one.
pub handle_all-IsSound :
    {Limit Limiter : Type 0} (srv : Server Limit Limiter) (rs : List Request)
    (p : Process Limit Limiter)
    → Trusts (keeping Sound) p.world.script
    → IsSound p.world.db
    → IsSound (handle_all srv rs p).1.world.db
handle_all-IsSound srv rs p t s =
    (handle_all-Kept srv (keeping Sound) Sound-IsKept
        (Registrations.register-Keeps (keeping Sound) Sound-IsKept Sound-Enters) rs p
        (keeping-Asks srv Sound rs) t).kept
      s

-- Whatever requests come and in whatever order, if the other sessions let the refresh tokens only
-- age, then after the last one each token is still in its place, of the same user, family, hash and
-- expiry; a token that was rotated is still rotated, a revoked one has its time of revocation, and
-- new tokens stand behind the old ones.
pub handle_all-Aged :
    {Limit Limiter : Type 0} (srv : Server Limit Limiter) (rs : List Request)
    (p : Process Limit Limiter)
    → Trusts (keeping Aged) p.world.script
    → Aged p.world.db (handle_all srv rs p).1.world.db
handle_all-Aged srv rs p t =
    (handle_all-Kept srv (keeping Aged) Aged-IsKept
      (Registrations.register-Keeps (keeping Aged) Aged-IsKept Aged-Enters) rs p
      (keeping-Asks srv Aged rs) t).kept

-- Whatever requests come and in whatever order, the registration that an id reads before them is
-- read by it after the last one, unchanged: its person and race, its status, its dorsal and its
-- times, if the other sessions leave it alone. No request confirms, moves or takes back a
-- registration that was there before it.
pub handle_all-Lasts :
    {Limit Limiter : Type 0} (srv : Server Limit Limiter) (rs : List Request)
    (p : Process Limit Limiter) (id : ℕ) (r : Registration)
    → Trusts (keeping (Lasts id)) p.world.script
    → entry_at id p.world.db ≡ some r
    → entry_at id (handle_all srv rs p).1.world.db ≡ some r
handle_all-Lasts srv rs p id r t =
    let after =
      handle_all-Kept srv (keeping (Lasts id)) (Lasts-IsKept id) (Entries.register-Keeps id) rs p
        (keeping-Asks srv (Lasts id) rs) t in
    after.kept r
