-- ===== src/Race/Rest/Webhook.antt =====
-- The dates of the webhook.
use go_finish_line_api.Prelude.{◌≡◌, refl, sym, ◌+◌, ◌≤◌, ◌<◌, Option, some}
use go_finish_line_api.Text.{Text}
use go_finish_line_api.Civil.{Time, IsDate, midnight}
use go_finish_line_api.Civil.Layout.{base_year}
use go_finish_line_api.Civil.Layout.RoundTrip.{parse_date_iff}
use go_finish_line_api.Race.Entity.{Race}
use go_finish_line_api.Race.Rest.{SanityWebhookPayload, payload_date, to_race_response}

-- The date that the list of races shows for a race in the years 0 to 9999 is read back by the
-- webhook as the midnight of the race's day, whatever time.RFC3339 makes of it.
pub payload_date-to_race_response :
    (rfc3339 : Text → Option Time) (p : SanityWebhookPayload) (r : Race)
    → IsDate r.date.date
    → base_year ≤ r.date.date.year
    → r.date.date.year < base_year + 10000
    → p.date ≡ (to_race_response r).date
    → payload_date rfc3339 p ≡ some (midnight r.date.date)
unfolding payload_date to_race_response
payload_date-to_race_response rfc3339 p r valid low high sent =
    let read = (parse_date_iff p.date r.date.date).1 (valid, low, high, sym sent) in rw read refl
