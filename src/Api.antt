-- ===== src/Api.antt =====
-- cmd/api/main.go and internal/common/server/server.go: the modules on one server. A route is the
-- handler that a RegisterRoutes names, behind the guards that it names with it.
pub mod Routes
pub mod Health
pub mod Engine
pub mod Guards
pub mod Requests
pub mod Capacity
use go_finish_line_api.Prelude.{
  ℕ, String, Bool, true, false, not, ◌&&◌, Option, none, some, List, [], ◌∷◌, ◌++◌, find,
  if◌then◌else◌,
}
use go_finish_line_api.Text.{Text, codes, text_eq, is_empty, Platform}
use go_finish_line_api.Civil.{Time}
use go_finish_line_api.Httpx.{
  Body, empty, error, json, Response, too_many_requests, no_user, set_user_id, user_id,
}
use go_finish_line_api.Httpx.Request.{Method, get, post, put, Request, Handler}
use go_finish_line_api.Auth.Library.{Library}
use go_finish_line_api.Auth.Service.{Settings}
use go_finish_line_api.Auth.Middleware.{require_auth}
use go_finish_line_api.Auth.Rest as AuthRest
use go_finish_line_api.Auth.Rest.{LoginRequest, TokenResponse, Reply, plain, CookieHandler}
use go_finish_line_api.User.Rest as UserRest
use go_finish_line_api.User.Rest.{CreateUserRequest, ChangePasswordRequest, UserResponse}
use go_finish_line_api.Race.Rest as RaceRest
use go_finish_line_api.Race.Rest.{SanityWebhookPayload, WebhookResponse, RaceResponse}
use go_finish_line_api.Participant.Rest as ParticipantRest
use go_finish_line_api.Participant.Rest.{RegisterRequest, RegistrationResponse, ReportRowResponse}
use go_finish_line_api.Report.Rest as ReportRest
use go_finish_line_api.Report.Rest.{
  TimelinePointResponse, ReferralCountResponse, ShirtSizeCountResponse, ParticipantPageResponse,
}
use go_finish_line_api.Report.Ports.{ReportRepository}
use go_finish_line_api.Report.Repository.{Collation, report_repository}
use go_finish_line_api.Api.Routes.{
  Route, login, refresh, logout, sanity_webhook, list_races, register, list_registrations,
  registrations_timeline, referral_sources, shirt_sizes, list_participants, create_user, list_users,
  me, change_password, user_by_id, find_route,
}
use go_finish_line_api.RateLimit.{RateLibrary, Process, per_ip}
use go_finish_line_api.Store.{World}

-- What the handlers answer with.
pub data Payload : Type 0 where
  nothing : Payload
  token : TokenResponse → Payload
  webhook : WebhookResponse → Payload
  races : List RaceResponse → Payload
  registration : RegistrationResponse → Payload
  registrations : List ReportRowResponse → Payload
  timeline : List TimelinePointResponse → Payload
  referrals : List ReferralCountResponse → Payload
  sizes : List ShirtSizeCountResponse → Payload
  people : ParticipantPageResponse → Payload
  user : UserResponse → Payload
  users : List UserResponse → Payload

-- What the server is built of: the settings of the configuration, and the libraries. `no_route` is
-- what gin answers where no route fits, and each `decode_…` is encoding/json for one type.
pub record Server (Limit Limiter : Type 0) : Type 0 where
  pub platform : Platform
  pub library : Library
  pub collation : Collation
  pub rate : RateLibrary Limit Limiter
  pub settings : Settings
  pub secure_cookie : Bool
  pub webhook_secret : Text
  pub service_secret : Text
  pub rfc3339 : Text → Option Time
  pub decode_login : Text → Option LoginRequest
  pub decode_user : Text → Option CreateUserRequest
  pub decode_password : Text → Option ChangePasswordRequest
  pub decode_registration : Text → Option RegisterRequest
  pub decode_webhook : Text → Option SanityWebhookPayload
  pub no_route : Request → Reply Payload

abbrev retyped : {A B : Type 0} → (A → B) → Body A → Body B
retyped f empty = empty
retyped f (error message) = error message
retyped f (json a) = json (f a)

abbrev pub as_payload : {A : Type 0} → (A → Payload) → Response A → Response Payload
as_payload f r = record { status = r.status; body = retyped f r.body }

abbrev pub served : {A : Type 0} → (A → Payload) → Handler A → CookieHandler Payload
served f h w = let (r, w') = h w in (plain (as_payload f r), w')

abbrev pub served_reply : {A : Type 0} → (A → Payload) → CookieHandler A → CookieHandler Payload
served_reply f h w =
    let (r, w') = h w in (record { response = as_payload f r.response; cookie = r.cookie }, w')

module _ {Limit Limiter : Type 0} (srv : Server Limit Limiter) where
  abbrev pub reports : ReportRepository
  reports = report_repository srv.collation

  abbrev pub behind_token :
      {A : Type 0} → (A → Payload) → Request → (ℕ → Handler A) → CookieHandler Payload
  behind_token f r next = served f (require_auth srv.library srv.settings r.authorization next)

  -- The handler of a route, behind its guards; the limiter of the login stands in `handle`.
  unfoldable pub dispatch : Route → Request → CookieHandler Payload
  unfolding require_auth
  dispatch login r =
      served_reply token
        (AuthRest.login srv.platform srv.library srv.settings srv.secure_cookie srv.decode_login r)
  dispatch refresh r =
      served_reply token (AuthRest.refresh srv.library srv.settings srv.secure_cookie r)
  dispatch logout r = served_reply (λ _. nothing) (AuthRest.logout srv.library srv.secure_cookie r)
  dispatch sanity_webhook r = served webhook (
      RaceRest.require_secret srv.webhook_secret r
        (RaceRest.handle_webhook srv.rfc3339 srv.decode_webhook r))
  dispatch list_races r = behind_token races r (λ _. RaceRest.handle_list)
  dispatch register r = served registration (
      ParticipantRest.require_secret srv.service_secret r
        (ParticipantRest.register srv.platform srv.decode_registration r))
  dispatch list_registrations r =
      behind_token registrations r (λ _. ParticipantRest.list_by_race srv.library r)
  dispatch registrations_timeline r =
      behind_token timeline r (λ _. ReportRest.registrations_timeline srv.library reports r)
  dispatch referral_sources r =
      behind_token referrals r (λ _. ReportRest.referral_sources srv.library reports r)
  dispatch shirt_sizes r = behind_token sizes r (λ _. ReportRest.shirt_sizes srv.library reports r)
  dispatch list_participants r =
      behind_token people r (λ _. ReportRest.participants srv.platform srv.library reports r)
  dispatch create_user r =
      behind_token user r (λ _. UserRest.create srv.platform srv.library srv.decode_user r)
  dispatch list_users r = behind_token users r (λ _. UserRest.list srv.platform r)
  dispatch me r = behind_token user r (λ id. UserRest.me (user_id (set_user_id id no_user)))
  dispatch change_password r =
      behind_token (λ _. nothing) r
        (λ id.
          UserRest.change_password srv.library srv.decode_password
            (user_id (set_user_id id no_user)) r)
  dispatch (user_by_id raw_id) r = behind_token user r (λ _. UserRest.by_id srv.library raw_id)

  abbrev on_world :
      {R : Type 0} → (World → R × World) → Process Limit Limiter → R × Process Limit Limiter
  on_world h p = let (r, w) = h p.world in (r, record p { world = w })

  abbrev too_many : String → Reply Payload
  too_many message = plain (too_many_requests message)

  -- A request on its route.
  unfoldable pub serve :
      Route → Request → Process Limit Limiter → Reply Payload × Process Limit Limiter
  unfolding dispatch per_ip too_many_requests
  serve login r p = per_ip srv.rate too_many r.client_ip (dispatch login r) p
  serve route r p = on_world (dispatch route r) p

  unfoldable pub handle : Request → Process Limit Limiter → Reply Payload × Process Limit Limiter
  unfolding find_route serve
  handle r p = elim (find_route r) [ some route ↦ serve route r p | none ↦ (srv.no_route r, p) ]

  -- One request after the other.
  unfoldable pub handle_all :
      List Request → Process Limit Limiter → List (Reply Payload) × Process Limit Limiter
  unfolding handle
  handle_all [] p = ([], p)
  handle_all (r ∷ rs) p =
      let (answer, p') = handle r p in
      let (answers, last) = handle_all rs p' in (answer ∷ answers, last)
