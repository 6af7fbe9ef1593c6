-- ===== src/Auth/Middleware.antt =====
-- internal/auth/adapters/middleware/middleware.go: the guard of the routes that need an account.
pub mod Guard
use go_finish_line_api.Prelude.{
  ℕ, ◌+◌, Bool, true, false, ◌&&◌, Option, none, some, List, [], ◌∷◌, ◌==◌, ltb, leb, if◌then◌else◌,
}
use go_finish_line_api.Text.{Text, codes}
use go_finish_line_api.Apperr.{Result, ok, err}
use go_finish_line_api.Httpx.{Response, unauthorized_request, respond_error}
use go_finish_line_api.Auth.Library.{Library}
use go_finish_line_api.Auth.Service.{Settings, authenticate}
use go_finish_line_api.Store.{World, Action}

-- strings.EqualFold against ASCII letters: a letter of either case. The two letters beyond ASCII
-- that fold to one (U+017F to s, U+212A to k) are in no part of the prefix.
abbrev fold_eq : ℕ → ℕ → Bool
fold_eq c d = fold c == fold d
  where
    fold : ℕ → ℕ
    fold x = if leb b'A' x && leb x b'Z' then x + 32 else x

-- The rest of the header behind the prefix, up to case.
unfoldable pub after_prefix : Text → Text → Option Text
after_prefix [] header = some header
after_prefix (p ∷ ps) [] = none
after_prefix (p ∷ ps) (c ∷ header) =
    let rest = after_prefix ps header in if fold_eq p c then rest else none

unfoldable pub bearer_token : Text → Option Text
unfolding after_prefix
bearer_token = after_prefix (codes "Bearer ")

abbrev pub guard :
    {A : Type 0} → (next : ℕ → World → Response A × World) → Result ℕ × World → Response A × World
guard next (ok id, w) = next id w
guard next (err e, w) = (respond_error e, w)

abbrev with_token :
    {A : Type 0}
    → Library
    → Settings
    → (next : ℕ → World → Response A × World) → Option Text
    → World
    → Response A × World
with_token lib s next none w = (unauthorized_request "missing or malformed authorization header", w)
with_token lib s next (some token) w = guard next (authenticate lib s token w)

-- `RequireAuth`; `next` is the handler behind it, with the user on the request's context.
unfoldable pub require_auth :
    {A : Type 0}
    → Library
    → Settings
    → (header : Text) → (next : ℕ → World → Response A × World) → World
    → Response A × World
unfolding bearer_token authenticate respond_error unauthorized_request
require_auth lib s header next w = with_token lib s next (bearer_token header) w
