-- ===== src/Race/Rest.antt =====
-- internal/race/adapters/rest: the webhook that keeps the races in step with the CMS, and the list
-- of races. The secret is compared as a whole.
pub mod Webhook
use go_finish_line_api.Prelude.{
  ℕ, true, false, ◌||◌, Option, none, some, List, [], ◌∷◌, map, ℤ, if◌then◌else◌,
}
use go_finish_line_api.Text.{Text, codes, text_eq, is_empty}
use go_finish_line_api.Civil.{Time, Date, midnight}
use go_finish_line_api.Civil.Layout.{format_date, parse_date}
use go_finish_line_api.Httpx.{json, Response, respond, unauthorized_request, bad_request}
use go_finish_line_api.Httpx.Request.{Request, bind_json, Handler, answer, reply, or_bad_request}
use go_finish_line_api.Race.Entity.{Race}
use go_finish_line_api.Race.Service

pub record SanityWebhookPayload : Type 0 where
  pub operation : Text
  pub slug : Text
  pub title : Text
  pub date : Text
  pub capacity : ℤ

-- What the webhook answers: the status, and the id of a race that was synced.
pub data WebhookResponse : Type 0 where
  synced : (id : ℕ) → WebhookResponse
  removed ignored : WebhookResponse

pub record RaceResponse : Type 0 where
  pub race_id : ℕ
  pub document_id : Text
  pub name : Text
  pub date : Text
  pub capacity : ℤ

unfoldable pub to_race_response : Race → RaceResponse
unfolding format_date
to_race_response r = record {
  race_id = r.id;
  document_id = r.document_id;
  name = r.name;
  date = format_date r.date.date;
  capacity = r.capacity;
}

abbrev external_id : SanityWebhookPayload → Text
external_id p = p.slug

abbrev or_rfc3339 : (rfc3339 : Text → Option Time) → Text → Option Date → Option Time
or_rfc3339 rfc3339 s none = rfc3339 s
or_rfc3339 rfc3339 s (some d) = some (midnight d)

-- `parseDate`; `rfc3339` is the instant that time.Parse reads with that layout.
unfoldable pub payload_date : (rfc3339 : Text → Option Time) → SanityWebhookPayload → Option Time
unfolding parse_date
payload_date rfc3339 p = or_rfc3339 rfc3339 p.date (parse_date p.date)

unfoldable pub require_secret : {B : Type 0} → (secret : Text) → Request → Handler B → Handler B
unfolding text_eq unauthorized_request
require_secret secret r next =
    if text_eq r.webhook_secret secret
    then next
    else answer (unauthorized_request "invalid webhook secret")

-- The `switch` on the operation.
unfoldable pub apply_payload :
    (rfc3339 : Text → Option Time) → SanityWebhookPayload → Handler WebhookResponse
unfolding text_eq payload_date reply
apply_payload rfc3339 p =
    if text_eq p.operation (codes "create") || text_eq p.operation (codes "update")
    then or_bad_request "invalid or missing date" (payload_date rfc3339 p) (λ date.
      reply (λ race. respond 200 (json (synced race.id)))
        (Service.sync (external_id p) p.title date p.capacity))
    else if text_eq p.operation (codes "delete")
    then reply (λ _. respond 200 (json removed)) (Service.remove (external_id p))
    else answer (respond 200 (json ignored))

unfoldable pub handle_webhook :
    (rfc3339 : Text → Option Time) (decode : Text → Option SanityWebhookPayload)
    → Request
    → Handler WebhookResponse
unfolding bind_json apply_payload bad_request
handle_webhook rfc3339 decode r =
    or_bad_request "invalid webhook payload" (bind_json decode (λ p. p.operation ∷ []) r) λ p.
      if is_empty (external_id p)
      then answer (bad_request "payload has no slug")
      else apply_payload rfc3339 p

unfoldable pub handle_list : Handler (List RaceResponse)
unfolding reply to_race_response
handle_list = reply (λ races. respond 200 (json (map to_race_response races))) Service.list
