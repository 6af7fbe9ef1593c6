-- ===== src/Auth/Rest.antt =====
-- internal/auth/adapters/rest: login, refresh and logout over the refresh cookie. The limiter in
-- front of the login is RateLimit's.
pub mod Cookies
use go_finish_line_api.Prelude.{
  ℕ, ◌+◌, ◌*◌, ◌/◌, Bool, true, false, Option, none, some, List, [], ◌∷◌, ℤ, pos, negsuc,
}
use go_finish_line_api.Text.{Text, codes, Platform}
use go_finish_line_api.Civil.{Time}
use go_finish_line_api.Apperr.{Result, ok, err}
use go_finish_line_api.Httpx.{
  empty, json, Response, respond, respond_error, bad_request, unauthorized_request,
}
use go_finish_line_api.Httpx.Request.{Request, bind_json}
use go_finish_line_api.Auth.Library.{Library}
use go_finish_line_api.Auth.Service
use go_finish_line_api.Auth.Service.{Settings, TokenPair}
use go_finish_line_api.Store.{World}

pub record LoginRequest : Type 0 where
  pub email : Text
  pub password : Text

pub record TokenResponse : Type 0 where
  pub access_token : Text
  pub token_type : Text
  pub expires_at : Time

unfoldable pub to_token_response : TokenPair → TokenResponse
to_token_response p = record {
  access_token = p.access_token;
  token_type = codes "Bearer";
  expires_at = p.access_expires_at;
}

-- A Set-Cookie header; SameSite is Strict in both.
pub record Cookie : Type 0 where
  pub name : Text
  pub content : Text
  pub max_age : ℤ
  pub path : Text
  pub secure : Bool
  pub http_only : Bool

-- A response, and the cookie that is set with it.
pub record Reply (A : Type 0) : Type 0 where
  pub response : Response A
  pub cookie : Option Cookie

abbrev pub plain : {A : Type 0} → Response A → Reply A
plain r = record { response = r; cookie = none }

abbrev pub with_cookie : {A : Type 0} → Cookie → Response A → Reply A
with_cookie c r = record { response = r; cookie = some c }

abbrev pub CookieHandler : Type 0 → Type 0
CookieHandler A = World → Reply A × World

abbrev refresh_cookie_name : Text
refresh_cookie_name = codes "refresh_token"

abbrev refresh_cookie_path : Text
refresh_cookie_path = codes "/api/v1/auth"

-- `setRefreshCookie`; the age is in whole seconds.
unfoldable pub set_refresh_cookie : Settings → (secure : Bool) → (token : Text) → Cookie
set_refresh_cookie s secure token = record {
  name = refresh_cookie_name;
  content = token;
  max_age = pos (s.refresh_ttl / 1000000000);
  path = refresh_cookie_path;
  secure = secure;
  http_only = true;
}

unfoldable pub clear_refresh_cookie : (secure : Bool) → Cookie
clear_refresh_cookie secure = record {
  name = refresh_cookie_name;
  content = [];
  max_age = negsuc 0;
  path = refresh_cookie_path;
  secure = secure;
  http_only = true;
}

abbrev pub logged_in : Settings → (secure : Bool) → TokenPair → Reply TokenResponse
logged_in s secure pair =
    with_cookie (set_refresh_cookie s secure pair.refresh_token)
      (respond 200 (json (to_token_response pair)))

abbrev login_reply : Settings → (secure : Bool) → Result TokenPair → Reply TokenResponse
login_reply s secure (ok pair) = logged_in s secure pair
login_reply s secure (err e) = plain (respond_error e)

abbrev log_in :
    Platform
    → Library
    → Settings
    → (secure : Bool) → Option LoginRequest
    → CookieHandler TokenResponse
log_in pf lib s secure none w = (plain (bad_request "invalid request body"), w)
log_in pf lib s secure (some q) w =
    let (r, w') = Service.login pf lib s q.email q.password w in (login_reply s secure r, w')

unfoldable pub login :
    Platform
    → Library
    → Settings
    → (secure : Bool) → (decode : Text → Option LoginRequest) → Request
    → CookieHandler TokenResponse
unfolding bind_json bad_request respond_error set_refresh_cookie to_token_response
login pf lib s secure decode r =
    log_in pf lib s secure (bind_json decode (λ q. q.email ∷ q.password ∷ []) r)

-- A failed refresh clears the cookie.
abbrev refresh_reply : Settings → (secure : Bool) → Result TokenPair → Reply TokenResponse
refresh_reply s secure (ok pair) = logged_in s secure pair
refresh_reply s secure (err e) = with_cookie (clear_refresh_cookie secure) (respond_error e)

abbrev exchange_cookie :
    Library → Settings → (secure : Bool) → Option Text → CookieHandler TokenResponse
exchange_cookie lib s secure none w = (plain (unauthorized_request "missing refresh token"), w)
exchange_cookie lib s secure (some raw) w =
    let (r, w') = Service.refresh lib s raw w in (refresh_reply s secure r, w')

unfoldable pub refresh :
    Library → Settings → (secure : Bool) → Request → CookieHandler TokenResponse
unfolding unauthorized_request respond_error set_refresh_cookie clear_refresh_cookie
    to_token_response
refresh lib s secure r = exchange_cookie lib s secure r.refresh_cookie

abbrev logged_out : (secure : Bool) → Reply (Unit {0})
logged_out secure = with_cookie (clear_refresh_cookie secure) (respond 204 empty)

abbrev logout_reply : (secure : Bool) → Result (Unit {0}) → Reply (Unit {0})
logout_reply secure (ok _) = logged_out secure
logout_reply secure (err e) = plain (respond_error e)

abbrev end_session : Library → (secure : Bool) → Option Text → CookieHandler (Unit {0})
end_session lib secure none w = (logged_out secure, w)
end_session lib secure (some raw) w =
    let (r, w') = Service.logout lib raw w in (logout_reply secure r, w')

unfoldable pub logout : Library → (secure : Bool) → Request → CookieHandler (Unit {0})
unfolding respond_error clear_refresh_cookie
logout lib secure r = end_session lib secure r.refresh_cookie
