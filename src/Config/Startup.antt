-- ===== src/Config/Startup.antt =====
-- cmd/api/main.go but for the wiring of its modules, and cmd/seed-admin/main.go: what runs before the
-- first request, the accounts that are there then, and how the process ends. What the migrations do
-- to the tables of the model is a parameter; their own order is Schema/Migrations'.
use go_finish_line_api.Prelude.{Bool, ◌||◌, if◌then◌else◌, Option, none, some, List, [], ◌∷◌}
use go_finish_line_api.Text.{Text, codes, is_empty, text_eq, Platform}
use go_finish_line_api.Config.Connection.{UrlLibrary, dsn, Driver, Pool, connect}
use go_finish_line_api.Apperr.{Result, ok, err, wrap, signal, failure, is_email_taken}
use go_finish_line_api.Auth.Library.{Library}
use go_finish_line_api.User.Entity.{User}
use go_finish_line_api.User.Service
use go_finish_line_api.Config.{Environment, Loader, Config, is_production, load}
use go_finish_line_api.Store.{World, Action, ◌>>◌, throw, on_err}

-- `if !cfg.IsProduction() { … }`
unfoldable pub prepare :
    Platform → Library → (migrate : Action (Unit {0})) → Config → Action (Unit {0})
unfolding is_production
prepare pf lib migrate cfg w =
    if is_production cfg
    then (ok tt, w)
    else (on_err (wrap "running dev migrations") migrate
          >> on_err (wrap "seeding admin user") (
              Service.ensure_admin pf lib (codes "Admin") (codes "admin@finishline.dev")
                (codes "admin.123")))
        w

abbrev after_connect :
    Platform → Library → (migrate : Action (Unit {0})) → Config → Result Pool → Action (Unit {0})
after_connect pf lib migrate c (ok pool) = prepare pf lib migrate c
after_connect pf lib migrate c (err e) = throw (wrap "connecting to database" e)

abbrev with_config : Result Config → (Config → Action (Unit {0})) → Action (Unit {0})
with_config (err e) next = throw (wrap "loading config" e)
with_config (ok c) next = next c

-- `run` of cmd/api, up to the building of the server.
unfoldable pub start :
    Loader
    → Environment
    → UrlLibrary
    → Driver
    → Platform
    → Library
    → (migrate : Action (Unit {0})) → Action (Unit {0})
unfolding load prepare connect dsn
start loader e urls driver pf lib migrate =
    with_config (load loader e) λ c. after_connect pf lib migrate c (connect driver (dsn urls c.db))

-- `newLogger`: JSON, or text with the level of debugging.
pub data LogFormat : Type 0 where
  json_log debug_text : LogFormat

unfoldable pub new_logger : (env : Text) → LogFormat
unfolding text_eq
new_logger env = if text_eq env (codes "production") then json_log else debug_text

-- What happens to the server while it runs: ListenAndServe returns, with an error or since it was
-- closed, or the process is told to stop.
pub data Event : Type 0 where
  listen_failed listen_closed stop_signal : Event

-- The end of `run` of cmd/api: the `select` and the shutdown; `none` while nothing has ended it. A
-- server that was closed sends nothing to the channel.
unfoldable pub wait : (shuts_down : Bool) → List Event → Option (Result (Unit {0}))
wait shuts_down [] = none
wait shuts_down (listen_failed ∷ events) = some (err (wrap "server error" (signal failure)))
wait shuts_down (listen_closed ∷ events) = wait shuts_down events
wait shuts_down (stop_signal ∷ events) =
    some (if shuts_down then ok tt else err (wrap "shutting down server" (signal failure)))

-- The flags of cmd/seed-admin.
pub record Flags : Type 0 where
  pub name : Text
  pub email : Text
  pub password : Text

abbrev pub settle_seed : Result User × World → Result (Unit {0}) × World
settle_seed (ok u, w) = (ok tt, w)
settle_seed (err e, w) = (if is_email_taken e then ok tt else err (wrap "creating admin" e), w)

abbrev create_admin : Platform → Library → Flags → Result Pool → Action (Unit {0})
create_admin pf lib f (ok pool) w =
    settle_seed (Service.register pf lib f.name f.email f.password w)
create_admin pf lib f (err e) w = throw (wrap "connecting to database" e) w

-- `run` of cmd/seed-admin
unfoldable pub seed_admin :
    Loader → Environment → UrlLibrary → Driver → Platform → Library → Flags → Action (Unit {0})
unfolding is_email_taken load connect dsn
seed_admin loader e urls driver pf lib f =
    if is_empty f.name || is_empty f.email || is_empty f.password
    then throw (wrap "-name, -email and -password are all required" (signal failure))
    else with_config (load loader e) λ c. create_admin pf lib f (connect driver (dsn urls c.db))
