-- ===== src/Config/Connection.antt =====
-- `DSN` of internal/common/config/config.go and `Connect` of internal/common/postgres/postgres.go.
-- net/url, net and gorm are parameters.
use go_finish_line_api.Prelude.{ℕ, ◌*◌, Bool, true, false, List, [], ◌∷◌}
use go_finish_line_api.Text.{Text, codes}
use go_finish_line_api.Apperr.{Result, ok, err, Err, wrap, signal, failure, ◌>>◌}
use go_finish_line_api.Config.{DbConfig}

-- The fields of url.URL that are set.
pub record Url : Type 0 where
  pub scheme : Text
  pub user : Text
  pub password : Text
  pub host : Text
  pub path : Text
  pub raw_query : Text

-- `URL.String`, `url.Values.Encode` and `net.JoinHostPort`
pub record UrlLibrary : Type 0 where
  pub print_url : Url → Text
  pub encode_values : List (Text × Text) → Text
  pub join_host_port : (host port : Text) → Text

unfoldable pub dsn : UrlLibrary → DbConfig → Text
dsn lib d = lib.print_url (record {
  scheme = codes "postgres";
  user = d.user;
  password = d.password;
  host = lib.join_host_port d.host d.port;
  path = d.name;
  raw_query = lib.encode_values ((codes "sslmode", d.ssl_mode) ∷ []);
})

-- What gorm, its pool and the server answer for a connection string.
pub record Driver : Type 0 where
  pub opens : Text → Bool
  pub has_pool : Text → Bool
  pub answers_ping : Text → Bool

-- The limits that the pool is given; times in seconds.
pub record Pool : Type 0 where
  pub dsn : Text
  pub max_open : ℕ
  pub max_idle : ℕ
  pub max_lifetime : ℕ
  pub max_idle_time : ℕ

abbrev check : Bool → Err → Result (Unit {0})
check true e = ok tt
check false e = err e

unfoldable pub connect : Driver → Text → Result Pool
connect driver url = do
  check (driver.opens url) (wrap "opening database" (signal failure))
  check (driver.has_pool url) (wrap "accessing connection pool" (signal failure))
  check (driver.answers_ping url) (wrap "pinging database" (signal failure))
  ok (record {
    dsn = url;
    max_open = 25;
    max_idle = 5;
    max_lifetime = 60 * 60;
    max_idle_time = 5 * 60;
  })
