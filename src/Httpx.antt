-- ===== src/Httpx.antt =====
-- internal/common/httpx: the response helpers that every handler shares, and the user on the
-- request's context.
pub mod Laws
pub mod Request
use go_finish_line_api.Prelude.{ℕ, ◌≡◌, String, Bool, true, false, Option, none, some}
use go_finish_line_api.Apperr.{
  Kind, validation, unauthorized, conflict, AppError, kind, msg, Err, as_app,
}

-- What is written to the client: a status, and no body, an `errorResponse`, or a value as JSON.
pub data Body (A : Type 0) : Type 0 where
  empty : Body A
  error : String → Body A
  json : A → Body A

pub record Response (A : Type 0) : Type 0 where
  pub status : ℕ
  pub body : Body A

-- What the handlers of a request share: the value at `contextUserIDKey`, the only key in use.
pub record Context : Type 0 where
  pub at_user_id : Option ℕ

-- The context of a request that no middleware has seen.
abbrev pub no_user : Context
no_user = record { at_user_id = none }

abbrev pub set_user_id : ℕ → Context → Context
set_user_id id c = record c { at_user_id = some id }

-- `UserID`; what is at the key is an id, since only `set_user_id` writes it.
abbrev pub user_id : Context → Option ℕ
user_id c = c.at_user_id

abbrev pub respond : {A : Type 0} → ℕ → Body A → Response A
respond s b = record { status = s; body = b }

unfoldable pub status_for : Kind → ℕ
status_for validation = 400
status_for unauthorized = 401
status_for conflict = 409
status_for Kind.not_found = 404

abbrev respond_as : {A : Type 0} → Option AppError → Response A
respond_as (some e) = respond (status_for (kind e)) (error (msg e))
respond_as none = respond 500 (error "internal server error")

-- `RespondError`; what it logs is not modelled.
unfoldable pub respond_error : {A : Type 0} → Err → Response A
unfolding status_for as_app
respond_error e = respond_as (as_app e)

unfoldable pub bad_request : {A : Type 0} → String → Response A
bad_request m = respond 400 (error m)

-- `Unauthorized`
unfoldable pub unauthorized_request : {A : Type 0} → String → Response A
unauthorized_request m = respond 401 (error m)

unfoldable pub too_many_requests : {A : Type 0} → String → Response A
too_many_requests m = respond 429 (error m)
