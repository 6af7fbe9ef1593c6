-- ===== src/Tests/Api.antt =====
-- The server on concrete requests: a limiter that counts down, and decoders that take the body for
-- every field.
use go_finish_line_api.Prelude.{
  length, ◌≤◌, ℕ, ◌-◌, ◌≡◌, inl, inr, refl, Bool, true, false, none, some, List, [], ◌∷◌, pos, ◌==◌,
  arith, if◌then◌else◌,
}
use go_finish_line_api.Text.{Text, codes}
use go_finish_line_api.Civil.{Time, midnight}
use go_finish_line_api.Httpx.{respond, error}
use go_finish_line_api.Httpx.Request.{Request, get, post}
use go_finish_line_api.Auth.Rest.{plain}
use go_finish_line_api.Auth.Middleware.{bearer_token}
use go_finish_line_api.Participant.Repository.Sound.{IsSound}
use go_finish_line_api.Api.Routes.{list_races, register, sanity_webhook, find_route}
use go_finish_line_api.Api.{Server, handle, handle_all}
use go_finish_line_api.Api.Requests.{handle_all-IsSound, handle_all-Aged, handle_all-Lasts}
use go_finish_line_api.Api.Capacity.{SyncsUpTo, handle_all_overbooks_none}
use go_finish_line_api.Guarantee.Bounds.{IsBounded}
use go_finish_line_api.Participant.Repository.Places.{confirmed_in}
use go_finish_line_api.Api.Guards.{handle-blocks, handle-locked}
use go_finish_line_api.RateLimit.{RateLibrary, Process, new_store, allow_all, allow_alone}
use go_finish_line_api.RateLimit.Clients.{answers_for, times_of, allow_all-refines}
use go_finish_line_api.Guarantee.Tokens.{Aged}
use go_finish_line_api.Report.Repository.{Collation}
use go_finish_line_api.Tests.Data.{
  platform, today, tables, world, library, settings, form, waiting_row,
}
use go_finish_line_api.Guarantee.Entries.{entry_at}
use go_finish_line_api.Tests.Registrations.{tables-IsSound}

abbrev spend : ℕ → Bool × ℕ
spend n = if n == 0 then (false, 0) else (true, n - 1)

abbrev pub rate : RateLibrary ℕ ℕ
rate = record { every = λ n. n; new_limiter = λ n burst. burst; allow = λ at l. spend l }

abbrev collation : Collation
collation = record { less = λ a b. false; ilike = λ v p. true }

abbrev server : Server ℕ ℕ
server = record {
  platform = platform;
  library = library;
  collation = collation;
  rate = rate;
  settings = settings;
  secure_cookie = true;
  webhook_secret = codes "hook";
  service_secret = codes "service";
  rfc3339 = λ t. none;
  decode_login = λ t. some (record { email = t; password = t });
  decode_user = λ t. some (record { name = t; email = t; password = t });
  decode_password = λ t. some (record { current_password = t; new_password = t });
  decode_registration = λ t. none;
  decode_webhook = λ t. some (record {
    operation = codes "create";
    slug = t;
    title = t;
    date = codes "2026-09-01";
    capacity = pos 2;
  });
  no_route = λ r. plain (respond 404 (error "404 page not found"));
}

abbrev request : Request
request = record {
  method = post;
  path = codes "auth" ∷ codes "login" ∷ [];
  query = [];
  authorization = [];
  service_secret = [];
  webhook_secret = codes "hook";
  refresh_cookie = some (codes "raw");
  client_ip = codes "10.0.0.1";
  body = codes "admin@example.com";
}

abbrev refresh_request : Request
refresh_request = record request { path = codes "auth" ∷ codes "refresh" ∷ [] }

abbrev hook_request : Request
hook_request = record request { path = codes "webhooks" ∷ codes "sanity" ∷ [] }

abbrev process : Process ℕ ℕ
process = record { world = world; store = new_store 1 5 }

handle_all-IsSound_example :
    IsSound (handle_all server (request ∷ hook_request ∷ refresh_request ∷ []) process).1.world.db
handle_all-IsSound_example =
    handle_all-IsSound server (request ∷ hook_request ∷ refresh_request ∷ []) process tt
      tables-IsSound

handle_all-Aged_example :
    Aged tables
      (handle_all server (request ∷ hook_request ∷ refresh_request ∷ []) process).1.world.db
handle_all-Aged_example =
    handle_all-Aged server (request ∷ hook_request ∷ refresh_request ∷ []) process tt

-- A server that reads the form out of every body, and a registration on it.
abbrev open_server : Server ℕ ℕ
open_server = record server {
  decode_registration = λ t. some (record {
    race_document_id = form.race_document_id;
    first_names = form.first_names;
    last_names = form.last_names;
    email = form.email;
    phone = form.phone;
    document_id = form.document_id;
    birth_date = codes "1990-05-20";
    gender = form.gender;
    referral_source = form.referral_source;
    modalidad = form.modalidad;
    shirt_size = form.shirt_size;
  });
}

abbrev entry_request : Request
entry_request = record request {
  path = codes "registrations" ∷ [];
  service_secret = codes "service";
}

handle_all-Lasts_example :
    entry_at 11 (handle_all open_server (entry_request ∷ hook_request ∷ []) process).1.world.db
    ≡ some waiting_row
handle_all-Lasts_example =
    handle_all-Lasts open_server (entry_request ∷ hook_request ∷ []) process 11 waiting_row tt refl

tables-IsBounded : IsBounded (pos 2) tables
tables-IsBounded = record { races = (omega arith, tt); dorsals = (tt, tt) }

syncs_two : (r : Request) → SyncsUpTo open_server 2 r
syncs_two r payload read = ground (arith, read)

handle_all_overbooks_none_example :
    length (
      confirmed_in 7
        (handle_all open_server
          (entry_request ∷ hook_request ∷ entry_request ∷ [])
          process).1.world.db.registrations)
    ≤ 2
handle_all_overbooks_none_example =
    handle_all_overbooks_none open_server (entry_request ∷ hook_request ∷ entry_request ∷ [])
      process 2 7 tt tt
      (syncs_two entry_request, (syncs_two hook_request, (syncs_two entry_request, tt)))
      tables-IsSound tables-IsBounded

abbrev races_request : Request
races_request = record request { method = get; path = codes "races" ∷ [] }

races_found : find_route races_request ≡ some list_races
unfolding find_route
races_found = refl

no_bearer : bearer_token [] ≡ none
unfolding bearer_token
no_bearer = refl

no_token : (token : Text) → ¬ (bearer_token [] ≡ some token)
no_token token e = ground (arith, no_bearer, e)

handle-blocks_example :
    ((handle server races_request process).0.response.status ≡ 401)
    × ((handle server races_request process).1.world.db ≡ tables)
handle-blocks_example =
    handle-blocks server races_request list_races process races_found refl
      (λ token id e. absurd (no_token token e))

abbrev form_request : Request
form_request = record request { path = codes "registrations" ∷ [] }

form_found : find_route form_request ≡ some register
unfolding find_route
form_found = refl

handle-locked_example :
    ((handle server form_request process).0.response.status ≡ 401)
    × ((handle server form_request process).1 ≡ process)
handle-locked_example =
    handle-locked server form_request process (inl (form_found, λ e. absurd (ground (arith, e))))

abbrev forged_request : Request
forged_request = record hook_request { webhook_secret = codes "guess" }

forged_found : find_route forged_request ≡ some sanity_webhook
unfolding find_route
forged_found = refl

-- Without the secret of the webhook nothing happens either.
forged_unchanged : (handle server forged_request process).1 ≡ process
forged_unchanged =
    (handle-locked server forged_request process
      (inr (forged_found, λ e. absurd (ground (arith, e))))).1

abbrev calls : List (Time × Text)
calls =
    (midnight today, codes "10.0.0.1")
    ∷ (midnight today, codes "10.0.0.2")
    ∷ (midnight today, codes "10.0.0.1")
    ∷ []

allow_all-refines_example :
    answers_for (codes "10.0.0.1") (allow_all rate calls (new_store 1 1))
    ≡ allow_alone rate (times_of (codes "10.0.0.1") calls) (rate.new_limiter 1 1)
allow_all-refines_example = allow_all-refines rate calls 1 1 (codes "10.0.0.1")
