-- ===== src/Api/Routes.antt =====
-- The routes of the API: what each module's RegisterRoutes names, and how gin finds one by the method
-- and the path behind "/api/v1". A fixed segment goes before a parameter.
use go_finish_line_api.Prelude.{
  String, Bool, true, false, not, ◌&&◌, Option, none, some, List, [], ◌∷◌, ◌++◌, find,
  if◌then◌else◌,
}
use go_finish_line_api.Text.{Text, codes, text_eq, is_empty}
use go_finish_line_api.Httpx.Request.{Method, get, post, put, Request}

pub data Route : Type 0 where
  login refresh logout : Route
  sanity_webhook list_races : Route
  register list_registrations : Route
  registrations_timeline referral_sources shirt_sizes list_participants : Route
  create_user list_users me change_password : Route
  user_by_id : (raw_id : Text) → Route

abbrev same_method : Method → Method → Bool
same_method get get = true
same_method post post = true
same_method put put = true
same_method get post = false
same_method get put = false
same_method post get = false
same_method post put = false
same_method put get = false
same_method put post = false

abbrev same_path : List String → List Text → Bool
same_path [] [] = true
same_path [] (t ∷ path) = false
same_path (s ∷ pattern) [] = false
same_path (s ∷ pattern) (t ∷ path) = text_eq (codes s) t && same_path pattern path

abbrev pub Entry : Type 0
Entry = Method × List String × Route

-- The calls of each module's RegisterRoutes.
abbrev pub auth_routes : List Entry
auth_routes =
    (post, "auth" ∷ "login" ∷ [], login)
    ∷ (post, "auth" ∷ "refresh" ∷ [], refresh)
    ∷ (post, "auth" ∷ "logout" ∷ [], logout)
    ∷ []

abbrev pub race_routes : List Entry
race_routes =
    (post, "webhooks" ∷ "sanity" ∷ [], sanity_webhook) ∷ (get, "races" ∷ [], list_races) ∷ []

abbrev pub participant_routes : List Entry
participant_routes =
    (post, "registrations" ∷ [], register) ∷ (get, "registrations" ∷ [], list_registrations) ∷ []

abbrev pub report_routes : List Entry
report_routes =
    (get, "reports" ∷ "registrations-timeline" ∷ [], registrations_timeline)
    ∷ (get, "reports" ∷ "referral-sources" ∷ [], referral_sources)
    ∷ (get, "reports" ∷ "shirt-sizes" ∷ [], shirt_sizes)
    ∷ (get, "participants" ∷ [], list_participants)
    ∷ []

-- The route with a parameter is `user_route`.
abbrev pub user_routes : List Entry
user_routes =
    (post, "users" ∷ [], create_user)
    ∷ (get, "users" ∷ [], list_users)
    ∷ (get, "users" ∷ "me" ∷ [], me)
    ∷ (put, "users" ∷ "me" ∷ "password" ∷ [], change_password)
    ∷ []

abbrev pub routes : List Entry
routes = auth_routes ++ race_routes ++ participant_routes ++ report_routes ++ user_routes

-- GET /users/:id
abbrev pub user_route : Method → List Text → Option Route
user_route get (t ∷ raw_id ∷ []) =
    if text_eq (codes "users") t && not (is_empty raw_id) then some (user_by_id raw_id) else none
user_route m path = none

unfoldable pub find_route : Request → Option Route
unfolding text_eq
find_route r = elim (find (λ e. same_method e.0 r.method && same_path e.1 r.path) routes) [
  | some e ↦ some e.2
  | none ↦ user_route r.method r.path
]
