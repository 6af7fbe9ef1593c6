-- ===== src/Api/Engine/Whole.antt =====
-- The whole server, with the probe and the log in front of the modules.
use go_finish_line_api.Prelude.{◌+◌}
use go_finish_line_api.Text.{Text, Platform}
use go_finish_line_api.Httpx.Request.{Request}
use go_finish_line_api.Participant.Service
use go_finish_line_api.Participant.Service.{RegisterInput}
use go_finish_line_api.Api.{Server}
use go_finish_line_api.Api.Health.{ping, handle_health}
use go_finish_line_api.Api.Requests.{Asks, handle-Kept}
use go_finish_line_api.Api.Engine.{
  Place, health, openapi, docs, nowhere, versioned, place_of, serve_at, engine, request_logger,
}
use go_finish_line_api.RateLimit.{Process}
use go_finish_line_api.Guarantee.{Guarantee, IsKept, Trusts, Kept, Keeps, here, call-Kept}

module _ {Limit Limiter : Type 0} (srv : Server Limit Limiter) (spec : Text) (G : Guarantee)
    (k : IsKept G)
    (registers : (pf : Platform) (input : RegisterInput)
      → Keeps G (Service.register pf input)) where
  health-Keeps : Keeps G handle_health
  unfolding handle_health
  health-Keeps w t = call-Kept G k ping k.same w t

  serve_at-Kept :
      (place : Place) (r : Request) (p : Process Limit Limiter)
      → Asks srv G k registers r
      → Trusts G p.world.script
      → Kept G p.world (serve_at srv spec place r p).1.world
  serve_at-Kept health r p asks t = health-Keeps p.world t
  serve_at-Kept openapi r p asks t = here G k p.world t
  serve_at-Kept docs r p asks t = here G k p.world t
  serve_at-Kept nowhere r p asks t = here G k p.world t
  serve_at-Kept (versioned rest) r p asks t =
      handle-Kept srv G k registers (record r { path = rest }) p asks t

  -- A request through the log and the engine keeps what the handlers keep.
  pub request_logger-Kept :
      (r : Request) (p : Process Limit Limiter)
      → Asks srv G k registers r
      → Trusts G p.world.script
      → Kept G p.world (request_logger (engine srv spec) r p).1.world
  unfolding request_logger engine
  request_logger-Kept r p asks t =
      let begun = record p { world = record p.world { ticks = p.world.ticks + 1 } } in
      let served = serve_at-Kept (place_of r.method r.path) r begun asks t in
      record { kept = served.kept; trusts = served.trusts }
