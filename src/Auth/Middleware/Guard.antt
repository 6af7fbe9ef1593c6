-- ===== src/Auth/Middleware/Guard.antt =====
-- What the guard lets through.
use go_finish_line_api.Prelude.{ℕ, ◌≡◌, refl, ap, ◌⊎◌, inl, inr, some, arith, Option-cases, ◌+◌}
use go_finish_line_api.Text.{Text}
use go_finish_line_api.Apperr.{app, as_app, AppError, invalid_token, ok, err, Result-cases}
use go_finish_line_api.Httpx.{Response, status_for, respond_error, unauthorized_request}
use go_finish_line_api.Auth.Jwt.{parse}
use go_finish_line_api.Auth.Library.{Library}
use go_finish_line_api.Auth.Service.{Settings, authenticate}
use go_finish_line_api.Auth.Middleware.{require_auth, bearer_token}
use go_finish_line_api.Store.{World}

authenticate-cases :
    (lib : Library) (s : Settings) (token : Text) (w : World)
    → ((id : ℕ) × (authenticate lib s token w ≡ (ok id, record w { ticks = w.ticks + 1 })))
      ⊎ (authenticate lib s token w
          ≡ (err (app (AppError.auth invalid_token)), record w { ticks = w.ticks + 1 }))
unfolding authenticate
authenticate-cases lib s token w = elim (Result-cases (parse lib s.jwt (w.clock w.ticks) token)) [
  | inl (c, good) ↦ inl (c.user_id, ground arith)
  | inr (e, bad) ↦ inr (ground arith)
]

-- A request whose header has no Bearer token, or one that does not authenticate, is answered with
-- 401 whatever handler stands behind the guard, and changes no table.
pub require_auth-blocks :
    {A : Type 0} (lib : Library) (s : Settings) (header : Text)
    (next : ℕ → World → Response A × World) (w : World)
    → ((token : Text) (id : ℕ)
        → bearer_token header ≡ some token
        → ¬ ((authenticate lib s token w).0 ≡ ok id))
    → ((require_auth lib s header next w).0.status ≡ 401)
      × ((require_auth lib s header next w).1.db ≡ w.db)
unfolding require_auth respond_error unauthorized_request as_app status_for
require_auth-blocks lib s header next w bars = elim (Option-cases (bearer_token header)) [
  | inl missing ↦ rw missing (refl, refl)
  | inr (token, found) ↦ elim (authenticate-cases lib s token w) [
    | inl (id, good) ↦ absurd (bars token id found (ap (λ out. out.0) good))
    | inr bad ↦ ground arith
  ]
]
