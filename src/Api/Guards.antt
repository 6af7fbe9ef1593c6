-- ===== src/Api/Guards.antt =====
-- What stands in front of the routes.
use go_finish_line_api.Prelude.{
  ℕ, ◌≡◌, ◌≢◌, ◌⊎◌, refl, Bool, true, false, some, arith, Bool-cases, inl, inr,
}
use go_finish_line_api.Text.{Text, text_eq}
use go_finish_line_api.Text.Laws.{text_eq→eq}
use go_finish_line_api.Apperr.{ok}
use go_finish_line_api.Httpx.{Response, unauthorized_request}
use go_finish_line_api.Httpx.Request.{Request}
use go_finish_line_api.Auth.Service.{authenticate}
use go_finish_line_api.Auth.Middleware.{require_auth, bearer_token}
use go_finish_line_api.Auth.Middleware.Guard.{require_auth-blocks}
use go_finish_line_api.Auth.Rest.{Reply}
use go_finish_line_api.Race.Rest as RaceRest
use go_finish_line_api.Participant.Rest as ParticipantRest
use go_finish_line_api.Api.Routes.{
  Route, login, refresh, logout, sanity_webhook, list_races, register, list_registrations,
  registrations_timeline, referral_sources, shirt_sizes, list_participants, create_user, list_users,
  me, change_password, user_by_id, find_route,
}
use go_finish_line_api.Api.{Payload, Server, dispatch, serve, handle}
use go_finish_line_api.RateLimit.{Process}
use go_finish_line_api.Store.{World}

-- The routes that are for accounts: all but the sessions' own and the two that other programs call.
abbrev pub is_private : Route → Bool
is_private login = false
is_private refresh = false
is_private logout = false
is_private sanity_webhook = false
is_private register = false
is_private route = true

text_eq-differs : (a b : Text) → a ≢ b → text_eq a b ≡ false
text_eq-differs a b h = elim (Bool-cases (text_eq a b)) [
  | inl same ↦ absurd (h (text_eq→eq a b same))
  | inr other ↦ other
]

module _ {Limit Limiter : Type 0} (srv : Server Limit Limiter) where
  -- No token of the request's header authenticates.
  abbrev pub Bars : Request → World → Type 0
  Bars r w =
      (token : Text) (id : ℕ)
      → bearer_token r.authorization ≡ some token
      → ¬ ((authenticate srv.library srv.settings token w).0 ≡ ok id)

  abbrev pub Refused : World → Reply Payload × World → Type 0
  Refused w out = (out.0.response.status ≡ 401) × (out.1.db ≡ w.db)

  token_blocks :
      {A : Type 0} (r : Request) (next : ℕ → World → Response A × World) (w : World)
      → Bars r w
      → ((require_auth srv.library srv.settings r.authorization next w).0.status ≡ 401)
        × ((require_auth srv.library srv.settings r.authorization next w).1.db ≡ w.db)
  token_blocks r next w bars =
      require_auth-blocks srv.library srv.settings r.authorization next w bars

  dispatch-blocks :
      (route : Route) (r : Request) (w : World)
      → is_private route ≡ true
      → Bars r w
      → Refused w (dispatch srv route r w)
  unfolding dispatch
  dispatch-blocks login r w h bars = absurd (ground arith)
  dispatch-blocks refresh r w h bars = absurd (ground arith)
  dispatch-blocks logout r w h bars = absurd (ground arith)
  dispatch-blocks sanity_webhook r w h bars = absurd (ground arith)
  dispatch-blocks register r w h bars = absurd (ground arith)
  dispatch-blocks list_races r w h bars = token_blocks r _ w bars
  dispatch-blocks list_registrations r w h bars = token_blocks r _ w bars
  dispatch-blocks registrations_timeline r w h bars = token_blocks r _ w bars
  dispatch-blocks referral_sources r w h bars = token_blocks r _ w bars
  dispatch-blocks shirt_sizes r w h bars = token_blocks r _ w bars
  dispatch-blocks list_participants r w h bars = token_blocks r _ w bars
  dispatch-blocks create_user r w h bars = token_blocks r _ w bars
  dispatch-blocks list_users r w h bars = token_blocks r _ w bars
  dispatch-blocks me r w h bars = token_blocks r _ w bars
  dispatch-blocks change_password r w h bars = token_blocks r _ w bars
  dispatch-blocks (user_by_id raw_id) r w h bars = token_blocks r _ w bars

  serve-blocks :
      (route : Route) (r : Request) (p : Process Limit Limiter)
      → is_private route ≡ true
      → Bars r p.world
      → ((serve srv route r p).0.response.status ≡ 401)
        × ((serve srv route r p).1.world.db ≡ p.world.db)
  unfolding serve
  serve-blocks login r p h bars = absurd (ground arith)
  serve-blocks route r p h bars = dispatch-blocks route r p.world h bars

  -- A request to a route that is for accounts, without a token that authenticates, is answered with
  -- 401 and changes no table.
  pub handle-blocks :
      (r : Request) (route : Route) (p : Process Limit Limiter)
      → find_route r ≡ some route
      → is_private route ≡ true
      → Bars r p.world
      → ((handle srv r p).0.response.status ≡ 401) × ((handle srv r p).1.world.db ≡ p.world.db)
  unfolding handle
  handle-blocks r route p found h bars = rw (found, handle) (serve-blocks route r p h bars)

  -- The route needs a secret, and the request sends another.
  abbrev pub SendsWrong : Request → Type 0
  SendsWrong r =
      ((find_route r ≡ some register) × (r.service_secret ≢ srv.service_secret))
      ⊎ ((find_route r ≡ some sanity_webhook) × (r.webhook_secret ≢ srv.webhook_secret))

  -- A registration that does not send the service's secret, and a call of the webhook that does not
  -- send the webhook's, are answered with 401, and the process is as it was: no statement ran, and
  -- no time was read.
  pub handle-locked :
      (r : Request) (p : Process Limit Limiter)
      → SendsWrong r
      → ((handle srv r p).0.response.status ≡ 401) × ((handle srv r p).1 ≡ p)
  unfolding handle serve dispatch ParticipantRest.require_secret RaceRest.require_secret
      unauthorized_request
  handle-locked r p (inl (found, wrong)) =
      rw (found, handle)
        (rw (text_eq-differs r.service_secret srv.service_secret wrong) (refl, refl))
  handle-locked r p (inr (found, wrong)) =
      rw (found, handle)
        (rw (text_eq-differs r.webhook_secret srv.webhook_secret wrong) (refl, refl))
