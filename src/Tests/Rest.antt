-- ===== src/Tests/Rest.antt =====
-- Races, numbers in a query and the settings.
use go_finish_line_api.Prelude.{
  ◌≡◌, ◌⊎◌, refl, true, false, none, some, [], ◌∷◌, any, pos, negsuc, arith, if◌then◌else◌,
}
use go_finish_line_api.Text.{Text, codes, text_eq, trim_space}
use go_finish_line_api.Text.Numeral.{print_int}
use go_finish_line_api.Civil.{Time, IsDate, civil, midnight, days_in_month}
use go_finish_line_api.Civil.Layout.{format_date}
use go_finish_line_api.Apperr.{ok, err}
use go_finish_line_api.Httpx.Request.{Request, get, query_text, get_query}
use go_finish_line_api.Race.Entity.{Race, new_race}
use go_finish_line_api.Race.Service as RaceService
use go_finish_line_api.Race.Service.Synced.{IsSynced, sync-by_document_id}
use go_finish_line_api.Race.Rest.{SanityWebhookPayload, payload_date, to_race_response}
use go_finish_line_api.Race.Rest.Webhook.{payload_date-to_race_response}
use go_finish_line_api.Report.Rest.{optional_int, lenient_int}
use go_finish_line_api.Report.Rest.Numbers.{optional_int-print_int}
use go_finish_line_api.Config.{
  Environment, Loader, get_env, read_config, config_of, frontend_required,
}
use go_finish_line_api.Config.Frontend.{no_slash, EndsApart, read_config-frontend}
use go_finish_line_api.Store.{World}
use go_finish_line_api.Tests.Data.{today, the_race, world}

-- The evening of the race, with its time of day.
abbrev evening : Time
evening = record { date = civil 12026 10 3; nanos = 64800000000000 }

abbrev sent_race : Race
sent_race = record {
  id = 100;
  document_id = codes "nocturna";
  name = codes "Nocturna";
  date = evening;
  capacity = pos 50;
  created_at = midnight today;
  updated_at = midnight today;
}

sent_race_valid :
    new_race 100 (midnight today) (codes "nocturna") (codes " Nocturna ") evening (pos 50)
    ≡ ok sent_race
unfolding new_race trim_space
sent_race_valid = refl

sync-by_document_id_example :
    (q : Race) × (v : World) × (RaceService.sync
        (codes "nocturna")
        (codes " Nocturna ")
        evening
        (pos 50)
        world
      ≡ (ok q, v))
    × (RaceService.by_document_id (codes "nocturna") v ≡ (ok q, v))
    × IsSynced sent_race q
sync-by_document_id_example =
    sync-by_document_id (codes "nocturna") (codes " Nocturna ") evening (pos 50) world sent_race
      refl sent_race_valid (omega arith) refl

abbrev payload : SanityWebhookPayload
payload = record {
  operation = codes "update";
  slug = codes "carrera";
  title = codes "Carrera";
  date = codes "2026-09-01";
  capacity = pos 2;
}

start-IsDate : IsDate (civil 12026 9 1)
unfolding days_in_month
start-IsDate = record { month_in = (omega arith, omega arith); day_in = (omega arith, omega arith) }

shown : codes "2026-09-01" ≡ (to_race_response the_race).date
unfolding to_race_response format_date
shown = refl

payload_date-to_race_response_example :
    payload_date (λ t. none) payload ≡ some (midnight (civil 12026 9 1))
payload_date-to_race_response_example =
    payload_date-to_race_response (λ t. none) payload the_race start-IsDate (omega arith)
      (omega arith) shown

abbrev page_request : Request
page_request = record {
  method = get;
  path = codes "participants" ∷ [];
  query = (codes "page", codes "-42") ∷ [];
  authorization = [];
  service_secret = [];
  webhook_secret = [];
  refresh_cookie = none;
  client_ip = [];
  body = [];
}

page_sent : query_text page_request (codes "page") ≡ print_int (negsuc 41)
unfolding query_text get_query text_eq print_int
page_sent = refl

optional_int-print_int_example :
    (optional_int page_request (codes "page") ≡ some (some (negsuc 41)))
    × (lenient_int page_request (codes "page") ≡ negsuc 41)
optional_int-print_int_example =
    optional_int-print_int page_request (codes "page") (negsuc 41) (omega arith) (omega arith)
      page_sent

abbrev environment : Environment
environment key =
    if text_eq key (codes "FRONTEND_BASE_URL") then some (codes "https://example.com//") else none

abbrev loader : Loader
loader = record { has_dot_env = false; load_file = λ e. none; parse_duration = λ t. none }

read_config-frontend_example :
    ((any no_slash (get_env environment "FRONTEND_BASE_URL" "") ≡ true)
      × ((url : Text) × ((read_config loader environment ≡ ok (config_of loader environment url))
            × EndsApart url)))
    ⊎ ((any no_slash (get_env environment "FRONTEND_BASE_URL" "") ≡ false)
        × (read_config loader environment ≡ err frontend_required))
read_config-frontend_example = read_config-frontend loader environment
