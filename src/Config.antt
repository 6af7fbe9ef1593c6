-- ===== src/Config.antt =====
-- internal/common/config/config.go: the settings, from the process's environment. What
-- cmd/api/main.go and cmd/seed-admin/main.go do with them before they serve is Config/Startup's.
pub mod Connection
pub mod Startup
pub mod Seeding
pub mod Frontend
use go_finish_line_api.Prelude.{
  ℕ, ◌*◌, String, Bool, true, false, ◌&&◌, Option, none, some, List, [], ◌∷◌, ◌==◌, ℤ, pos,
  if◌then◌else◌,
}
use go_finish_line_api.Text.{Text, codes, text_eq, is_empty}
use go_finish_line_api.Apperr.{Err, wrap, signal, failure, Result, ok, err}

-- `os.LookupEnv`
abbrev pub Environment : Type 0
Environment = Text → Option Text

-- What the program takes from os, godotenv and time: whether a file .env is there, the environment
-- once it is loaded (or its error), and time.ParseDuration in nanoseconds.
pub record Loader : Type 0 where
  pub has_dot_env : Bool
  pub load_file : Environment → Option Environment
  pub parse_duration : Text → Option ℤ

pub record DbConfig : Type 0 where
  pub host : Text
  pub user : Text
  pub password : Text
  pub name : Text
  pub port : Text
  pub ssl_mode : Text

pub record AuthConfig : Type 0 where
  pub jwt_secret : Text
  pub access_ttl : ℤ
  pub refresh_ttl : ℤ

pub record SanityConfig : Type 0 where
  pub webhook_secret : Text

pub record EmailConfig : Type 0 where
  pub resend_api_key : Text
  pub from : Text

pub record Config : Type 0 where
  pub env : Text
  pub app_port : Text
  pub frontend_base_url : Text
  pub db : DbConfig
  pub auth : AuthConfig
  pub sanity : SanityConfig
  pub email : EmailConfig
  pub service_secret : Text

unfoldable pub is_production : Config → Bool
unfolding text_eq
is_production c = text_eq c.env (codes "production")

unfoldable pub get_env : Environment → (key fallback : String) → Text
get_env e key fallback = elim (e (codes key)) [ some v ↦ v | none ↦ codes fallback ]

abbrev or_default : ℤ → Option ℤ → ℤ
or_default fallback none = fallback
or_default fallback (some d) = d

unfoldable pub get_env_duration : Loader → Environment → (key : String) → (fallback : ℤ) → ℤ
get_env_duration lib e key fallback = elim (e (codes key)) [
  | none ↦ fallback
  | some v ↦ or_default fallback (lib.parse_duration v)
]

abbrev minutes : ℕ → ℤ
minutes n = pos (n * 60000000000)

-- strings.TrimRight(s, "/")
unfoldable pub trim_slashes : Text → Text
trim_slashes [] = []
trim_slashes (c ∷ s) =
    let rest = trim_slashes s in if c == b'/' && is_empty rest then [] else c ∷ rest

unfoldable pub load_dot_env : Loader → Environment → Result Environment
load_dot_env lib e =
    if lib.has_dot_env
    then elim (lib.load_file e) [
      | some loaded ↦ ok loaded
      | none ↦ err (wrap "loading .env" (signal failure))
    ]
    else ok e

abbrev pub config_of : Loader → Environment → (frontend_base_url : Text) → Config
config_of lib e frontend_base_url = record {
  env = get_env e "APP_ENV" "development";
  app_port = get_env e "APP_PORT" "8080";
  frontend_base_url = frontend_base_url;
  db = record {
    host = get_env e "DB_HOST" "localhost";
    user = get_env e "DB_USER" "postgres";
    password = get_env e "DB_PASSWORD" "";
    name = get_env e "DB_NAME" "finishline";
    port = get_env e "DB_PORT" "5432";
    ssl_mode = get_env e "DB_SSLMODE" "require";
  };
  auth = record {
    jwt_secret = get_env e "JWT_SECRET" "dev-insecure-secret-change-me";
    access_ttl = get_env_duration lib e "ACCESS_TOKEN_TTL" (minutes 15);
    refresh_ttl = get_env_duration lib e "REFRESH_TOKEN_TTL" (minutes (7 * 24 * 60));
  };
  sanity = record {
    webhook_secret = get_env e "SANITY_WEBHOOK_SECRET" "dev-insecure-webhook-secret";
  };
  email = record {
    resend_api_key = get_env e "RESEND_API_KEY" "";
    from = get_env e "EMAIL_FROM" "no-reply@finishline.dev";
  };
  service_secret = get_env e "SERVICE_SECRET" "dev-insecure-service-secret";
}

abbrev pub frontend_required : Err
frontend_required = wrap "FRONTEND_BASE_URL is required" (signal failure)

-- `Load` from the loaded environment on.
unfoldable pub read_config : Loader → Environment → Result Config
unfolding get_env get_env_duration trim_slashes
read_config lib e =
    let url = trim_slashes (get_env e "FRONTEND_BASE_URL" "") in
    if is_empty url then err frontend_required else ok (config_of lib e url)

abbrev after_load : Loader → Result Environment → Result Config
after_load lib (err e) = err e
after_load lib (ok loaded) = read_config lib loaded

unfoldable pub load : Loader → Environment → Result Config
unfolding load_dot_env read_config
load lib e = after_load lib (load_dot_env lib e)
