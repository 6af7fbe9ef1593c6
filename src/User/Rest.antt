-- ===== src/User/Rest.antt =====
-- internal/user/adapters/rest: the accounts. The user on the request's context, which the guard
-- sets, is an argument; `none` stands for a request that came by no guard.
use go_finish_line_api.Prelude.{ℕ, Option, none, some, List, [], ◌∷◌, map, if◌then◌else◌}
use go_finish_line_api.Text.{Text, codes, Platform}
use go_finish_line_api.Civil.{Time}
use go_finish_line_api.Apperr.{Result, ok, err, is_user_not_found}
use go_finish_line_api.Httpx.{empty, json, Response, respond, respond_error, unauthorized_request}
use go_finish_line_api.Httpx.Request.{
  Request, get_query, bind_json, Handler, answer, reply, or_bad_request,
}
use go_finish_line_api.Auth.Library.{Library}
use go_finish_line_api.User.Entity.{User}
use go_finish_line_api.User.Service

pub record CreateUserRequest : Type 0 where
  pub name : Text
  pub email : Text
  pub password : Text

pub record ChangePasswordRequest : Type 0 where
  pub current_password : Text
  pub new_password : Text

pub record UserResponse : Type 0 where
  pub id : ℕ
  pub name : Text
  pub email : Text
  pub created_at : Time

unfoldable pub to_response : User → UserResponse
to_response u = record { id = u.id; name = u.name; email = u.email; created_at = u.created_at }

unfoldable pub create :
    Platform → Library → (decode : Text → Option CreateUserRequest) → Request → Handler UserResponse
unfolding bind_json reply to_response
create pf lib decode r =
    or_bad_request "invalid request body"
      (bind_json decode (λ q. q.name ∷ q.email ∷ q.password ∷ []) r)
      λ q.
        reply (λ u. respond 201 (json (to_response u)))
          (Service.register pf lib q.name q.email q.password)

-- The `switch` of `listByEmail`
abbrev found_by_email : Result User → Response (List UserResponse)
found_by_email (ok u) = respond 200 (json (to_response u ∷ []))
found_by_email (err e) = if is_user_not_found e then respond 200 (json []) else respond_error e

unfoldable pub list_by_email : Platform → (email : Text) → Handler (List UserResponse)
unfolding to_response respond_error is_user_not_found
list_by_email pf email w =
    let (found, w') = Service.by_email pf email w in (found_by_email found, w')

unfoldable pub list : Platform → Request → Handler (List UserResponse)
unfolding get_query list_by_email reply to_response
list pf r = elim (get_query r (codes "email")) [
  | some email ↦ list_by_email pf email
  | none ↦ reply (λ users. respond 200 (json (map to_response users))) Service.list
]

abbrev as_user : {B : Type 0} → Option ℕ → (ℕ → Handler B) → Handler B
as_user none k = answer (unauthorized_request "not authenticated")
as_user (some id) k = k id

unfoldable pub me : (user_id : Option ℕ) → Handler UserResponse
unfolding reply to_response unauthorized_request
me user_id =
    as_user user_id λ id. reply (λ u. respond 200 (json (to_response u))) (Service.by_id id)

unfoldable pub change_password :
    Library
    → (decode : Text → Option ChangePasswordRequest) → (user_id : Option ℕ) → Request
    → Handler (Unit {0})
unfolding bind_json reply unauthorized_request
change_password lib decode user_id r = as_user user_id λ id.
    or_bad_request "invalid request body"
      (bind_json decode (λ q. q.current_password ∷ q.new_password ∷ []) r)
      λ q.
        reply (λ _. respond 204 empty)
          (Service.change_password lib id q.current_password q.new_password)

unfoldable pub by_id : Library → (raw_id : Text) → Handler UserResponse
unfolding reply to_response
by_id lib raw_id =
    or_bad_request "invalid user id" (lib.parse_uuid raw_id)
      λ id. reply (λ u. respond 200 (json (to_response u))) (Service.by_id id)
