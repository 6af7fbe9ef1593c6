-- ===== src/Participant/Rest.antt =====
-- internal/participant/adapters/rest: registration by the site's own backend, and the listing of a
-- race. The secret is compared as a whole; that the comparison takes constant time is not modelled.
use go_finish_line_api.Prelude.{ℕ, Option, List, [], ◌∷◌, map, ℤ, if◌then◌else◌}
use go_finish_line_api.Text.{Text, codes, text_eq, Platform}
use go_finish_line_api.Civil.{Time, Date, midnight}
use go_finish_line_api.Civil.Layout.{parse_date}
use go_finish_line_api.Httpx.{json, respond, unauthorized_request}
use go_finish_line_api.Httpx.Request.{
  Request, query_text, bind_json, Handler, answer, reply, or_bad_request,
}
use go_finish_line_api.Auth.Library.{Library}
use go_finish_line_api.Participant.Values.{gender_text, shirt_size_text, status_text}
use go_finish_line_api.Participant.Listing.{RegistrationDetail, by_race}
use go_finish_line_api.Participant.Service
use go_finish_line_api.Participant.Service.{RegisterInput, Completed}

pub record RegisterRequest : Type 0 where
  pub race_document_id : Text
  pub first_names : Text
  pub last_names : Text
  pub email : Text
  pub phone : Text
  pub document_id : Text
  pub birth_date : Text
  pub gender : Text
  pub referral_source : Text
  pub modalidad : Text
  pub shirt_size : Text

abbrev pub required_fields : RegisterRequest → List Text
required_fields q =
    q.race_document_id ∷ q.first_names ∷ q.last_names ∷ q.email ∷ q.phone ∷ q.document_id
    ∷ q.birth_date ∷ q.gender ∷ q.referral_source ∷ []

pub record RegistrationResponse : Type 0 where
  pub registration_id : ℕ
  pub race_document_id : Text
  pub first_names : Text
  pub last_names : Text
  pub email : Text
  pub phone : Text
  pub document_id : Text
  pub gender : Text
  pub modalidad : Text
  pub shirt_size : Text
  pub status : Text
  pub dorsal : Option ℤ
  pub created_at : Time
  pub confirmed_at : Option Time

unfoldable pub to_registration_response : Completed → RegistrationResponse
to_registration_response res = record {
  registration_id = res.registration.id;
  race_document_id = res.race.document_id;
  first_names = res.participant.first_names;
  last_names = res.participant.last_names;
  email = res.participant.email;
  phone = res.participant.phone;
  document_id = res.participant.document_id;
  gender = gender_text res.participant.gender;
  modalidad = res.registration.modalidad;
  shirt_size = shirt_size_text res.registration.shirt_size;
  status = status_text res.registration.status;
  dorsal = res.registration.dorsal;
  created_at = res.registration.created_at;
  confirmed_at = res.registration.confirmed_at;
}

pub record ReportRowResponse : Type 0 where
  pub registration_id : ℕ
  pub first_names : Text
  pub last_names : Text
  pub email : Text
  pub phone : Text
  pub gender : Text
  pub modalidad : Text
  pub shirt_size : Text
  pub status : Text
  pub dorsal : Option ℤ
  pub created_at : Time
  pub confirmed_at : Option Time

unfoldable pub to_report_row : RegistrationDetail → ReportRowResponse
to_report_row d = record {
  registration_id = d.registration_id;
  first_names = d.first_names;
  last_names = d.last_names;
  email = d.email;
  phone = d.phone;
  gender = gender_text d.gender;
  modalidad = d.modalidad;
  shirt_size = shirt_size_text d.shirt_size;
  status = status_text d.status;
  dorsal = d.dorsal;
  created_at = d.created_at;
  confirmed_at = d.confirmed_at;
}

-- `requireSecret`, with the handler behind it
unfoldable pub require_secret : {B : Type 0} → (secret : Text) → Request → Handler B → Handler B
unfolding text_eq unauthorized_request
require_secret secret r next =
    if text_eq r.service_secret secret
    then next
    else answer (unauthorized_request "invalid service secret")

abbrev pub register_input : RegisterRequest → Date → RegisterInput
register_input q birth_date = record {
  race_document_id = q.race_document_id;
  first_names = q.first_names;
  last_names = q.last_names;
  email = q.email;
  phone = q.phone;
  document_id = q.document_id;
  birth_date = midnight birth_date;
  gender = q.gender;
  referral_source = q.referral_source;
  modalidad = q.modalidad;
  shirt_size = q.shirt_size;
}

unfoldable pub register :
    Platform → (decode : Text → Option RegisterRequest) → Request → Handler RegistrationResponse
unfolding bind_json parse_date reply to_registration_response
register pf decode r =
    or_bad_request "invalid request body" (bind_json decode required_fields r) λ q.
      or_bad_request "birth_date must be YYYY-MM-DD" (parse_date q.birth_date) λ birth_date.
        reply (λ res. respond 201 (json (to_registration_response res)))
          (Service.register pf (register_input q birth_date))

unfoldable pub list_by_race : Library → Request → Handler (List ReportRowResponse)
unfolding query_text reply to_report_row
list_by_race lib r =
    or_bad_request "race_id query parameter is required and must be a uuid"
      (lib.parse_uuid (query_text r (codes "race_id")))
      λ race_id. reply (λ details. respond 200 (json (map to_report_row details))) (by_race race_id)
