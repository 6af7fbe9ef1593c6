-- ===== src/Api/Engine.antt =====
-- `New` of internal/common/server/server.go: the probe and the documents at the root, the modules
-- under /api/v1, and the line that is logged of each request. The text of the specification is a
-- file that the build embeds, and a parameter.
pub mod Whole
use go_finish_line_api.Prelude.{
  ℕ, ◌+◌, ◌≡◌, refl, Bool, Option, none, some, List, [], ◌∷◌, ◌++◌, Option-cases, inl, inr,
  if◌then◌else◌,
}
use go_finish_line_api.Text.{Text, codes, text_eq}
use go_finish_line_api.Civil.{Time}
use go_finish_line_api.Apperr.{Result}
use go_finish_line_api.Httpx.{Response}
use go_finish_line_api.Httpx.Request.{Method, get, post, put, Request}
use go_finish_line_api.Auth.Rest.{Reply}
use go_finish_line_api.Api.{Payload, Server, handle}
use go_finish_line_api.Api.Health.{handle_health}
use go_finish_line_api.RateLimit.{Process}
use go_finish_line_api.Store.{World}

-- What the server sends: the answer of a module, of the probe, or `c.Data`.
pub data Sent : Type 0 where
  module_reply : Reply Payload → Sent
  probed : Response Text → Sent
  data_reply : (status : ℕ) (content_type body : Text) → Sent

abbrev pub docs_html : Text
docs_html =
    codes "<!doctype html>\n<html>\n  <head>\n    <title>FinishLine API</title>\n"
    ++ codes "    <meta charset=\"utf-8\" />\n"
    ++ codes "    <meta name=\"viewport\" content=\"width=device-width, initial-scale=1\" />\n"
    ++ codes "  </head>\n  <body>\n"
    ++ codes "    <script id=\"api-reference\" data-url=\"/openapi.yaml\"></script>\n"
    ++ codes "    <script src=\"https://cdn.jsdelivr.net/npm/@scalar/api-reference\"></script>\n"
    ++ codes "  </body>\n</html>"

unfoldable pub handle_spec : (spec : Text) → Sent
handle_spec spec = data_reply 200 (codes "application/yaml") spec

unfoldable pub handle_docs : Sent
handle_docs = data_reply 200 (codes "text/html; charset=utf-8") docs_html

-- Where a path leads: one of the three of the root, or behind the prefix of the version.
pub data Place : Type 0 where
  health openapi docs nowhere : Place
  versioned : List Text → Place

-- `/health`, `/openapi.yaml` and `/docs`
abbrev root_place : Text → Place
root_place name =
    if text_eq name (codes "health")
    then health
    else if text_eq name (codes "openapi.yaml")
    then openapi
    else if text_eq name (codes "docs")
    then docs
    else nowhere

-- The groups at `/api/v1`
unfoldable pub place_of : Method → (path : List Text) → Place
unfolding text_eq
place_of get (name ∷ []) = root_place name
place_of m (api ∷ v1 ∷ rest) =
    if text_eq api (codes "api")
    then if text_eq v1 (codes "v1") then versioned rest else nowhere
    else nowhere
place_of m path = nowhere

module _ {Limit Limiter : Type 0} (srv : Server Limit Limiter) (spec : Text) where
  abbrev probe_now : Process Limit Limiter → Sent × Process Limit Limiter
  probe_now p = let (r, w) = handle_health p.world in (probed r, record p { world = w })

  -- gin looks a path up whole; behind the prefix the modules see the rest of it.
  abbrev pub serve_at : Place → Request → Process Limit Limiter → Sent × Process Limit Limiter
  serve_at health r p = probe_now p
  serve_at openapi r p = (handle_spec spec, p)
  serve_at docs r p = (handle_docs, p)
  serve_at nowhere r p = (module_reply (srv.no_route r), p)
  serve_at (versioned rest) r p =
      let (answer, p') = handle srv (record r { path = rest }) p in (module_reply answer, p')

  unfoldable pub engine : Request → Process Limit Limiter → Sent × Process Limit Limiter
  unfolding place_of handle handle_health handle_spec handle_docs
  engine r p = serve_at (place_of r.method r.path) r p

-- `logger.Info("request", …)`; the duration is between the two readings of the clock.
pub record LogLine : Type 0 where
  pub method : Method
  pub path : List Text
  pub status : ℕ
  pub started : Time
  pub ended : Time

abbrev sent_status : Sent → ℕ
sent_status (module_reply r) = r.response.status
sent_status (probed r) = r.status
sent_status (data_reply status content_type body) = status

abbrev tick : {Limit Limiter : Type 0} → Process Limit Limiter → Time × Process Limit Limiter
tick p =
    (p.world.clock p.world.ticks, record p { world = record p.world { ticks = p.world.ticks + 1 } })

-- `requestLogger`: what it logs of a request, and the answer of the handlers behind it.
unfoldable pub request_logger :
    {Limit Limiter : Type 0} (next : Request → Process Limit Limiter → Sent × Process Limit Limiter)
    → Request
    → Process Limit Limiter
    → (LogLine × Sent) × Process Limit Limiter
request_logger next r p =
    let (start, p1) = tick p in
    let (sent, p2) = next r p1 in
    let (end, p3) = tick p2 in
    (
      (
        record {
          method = r.method;
          path = r.path;
          status = sent_status sent;
          started = start;
          ended = end;
        },
        sent,
      ),
      p3,
    )
