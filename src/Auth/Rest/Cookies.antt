-- ===== src/Auth/Rest/Cookies.antt =====
-- The refresh cookie.
use go_finish_line_api.Prelude.{◌≡◌, refl, Bool, some, inl, inr, ◌⊎◌}
use go_finish_line_api.Text.{Text}
use go_finish_line_api.Apperr.{Err, AppError, kind, ok, err, Result-cases}
use go_finish_line_api.Httpx.{json, respond, respond_error, status_for}
use go_finish_line_api.Httpx.Request.{Request}
use go_finish_line_api.Auth.Library.{Library}
use go_finish_line_api.Auth.Service
use go_finish_line_api.Auth.Service.{Settings, TokenPair}
use go_finish_line_api.Auth.Rest.{
  Reply, TokenResponse, to_token_response, set_refresh_cookie, clear_refresh_cookie, refresh,
  with_cookie,
}
use go_finish_line_api.Store.{World}

-- With a refresh cookie, the handler does what the service does with the cookie's token: a new pair
-- is answered with 200, the access token in the body and the refresh token in the cookie alone, and
-- any error clears the cookie.
pub refresh-cookie :
    (lib : Library) (s : Settings) (secure : Bool) (r : Request) (raw : Text) (w : World)
    → r.refresh_cookie ≡ some raw
    → ((refresh lib s secure r w).1 ≡ (Service.refresh lib s raw w).1)
      × (((pair : TokenPair) × ((Service.refresh lib s raw w).0 ≡ ok pair)
            × ((refresh lib s secure r w).0
                ≡ with_cookie
                    (set_refresh_cookie s secure pair.refresh_token)
                    (respond 200 (json (to_token_response pair)))))
          ⊎ ((e : Err) × ((Service.refresh lib s raw w).0 ≡ err e)
              × ((refresh lib s secure r w).0
                  ≡ with_cookie (clear_refresh_cookie secure) (respond_error e))))
unfolding refresh
refresh-cookie lib s secure r raw w sent = elim (Result-cases (Service.refresh lib s raw w).0) [
  | inl (pair, good) ↦ rw (sent, good) (refl, inl (pair, refl, refl))
  | inr (e, bad) ↦ rw (sent, bad) (refl, inr (e, refl, refl))
]

-- What a refused cookie is answered with.
abbrev pub IsDismissed : (secure : Bool) → AppError → Reply TokenResponse → Type 0
IsDismissed secure e answer =
    (answer.response.status ≡ status_for (kind e))
    × (answer.cookie ≡ some (clear_refresh_cookie secure))
