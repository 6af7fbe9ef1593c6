-- ===== src/Httpx/Request.antt =====
-- A request as gin hands it to the handlers, and the shape that the handlers share: an action of a
-- service, and the response to what it returns.
use go_finish_line_api.Prelude.{String, Option, none, some, List, [], any, find, if◌then◌else◌}
use go_finish_line_api.Text.{Text, text_eq, is_empty}
use go_finish_line_api.Apperr.{Result, ok, err}
use go_finish_line_api.Httpx.{Response, respond_error, bad_request}
use go_finish_line_api.Store.{World, Action}

pub data Method : Type 0 where
  get post put : Method

-- `path` is split at the slashes; the routes of the modules see it behind "/api/v1". A header that is
-- missing is empty; the cookie is the one named refresh_token.
pub record Request : Type 0 where
  pub method : Method
  pub path : List Text
  pub query : List (Text × Text)
  pub authorization : Text
  pub service_secret : Text
  pub webhook_secret : Text
  pub refresh_cookie : Option Text
  pub client_ip : Text
  pub body : Text

-- `c.GetQuery(key)` and `c.Query(key)`
unfoldable pub get_query : Request → Text → Option Text
unfolding text_eq
get_query r key = elim (find (λ q. text_eq q.0 key) r.query) [ none ↦ none | some q ↦ some q.1 ]

unfoldable pub query_text : Request → Text → Text
unfolding get_query
query_text r key = elim (get_query r key) [ none ↦ [] | some v ↦ v ]

-- `c.ShouldBindJSON(&req)`: encoding/json, and then the fields with `binding:"required"`, which an
-- empty text does not pass.
unfoldable pub bind_json :
    {A : Type 0} → (decode : Text → Option A) → (required : A → List Text) → Request → Option A
bind_json decode required r = elim (decode r.body) [
  | none ↦ none
  | some a ↦ if any is_empty (required a) then none else some a
]

abbrev pub Handler : Type 0 → Type 0
Handler B = World → Response B × World

-- A response that needs no service.
abbrev pub answer : {B : Type 0} → Response B → Handler B
answer r w = (r, w)

abbrev replied : {A B : Type 0} → (A → Response B) → Result A → Response B
replied f (ok a) = f a
replied f (err e) = respond_error e

-- `if err != nil { httpx.RespondError(c, err); return }`, and the response to a value.
unfoldable pub reply : {A B : Type 0} → (A → Response B) → Action A → Handler B
unfolding respond_error
reply f m w = let (r, w') = m w in (replied f r, w')

-- A value that was read from the request, or 400.
abbrev pub or_bad_request : {A B : Type 0} → String → Option A → (A → Handler B) → Handler B
or_bad_request message none k = answer (bad_request message)
or_bad_request message (some a) k = k a
