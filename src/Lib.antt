-- ===== src/Lib.antt =====
-- A model of the go-finish-line API: registration of runners for races, the admin's accounts and
-- sessions, and the admin's reports, from the Go sources under internal/.
--
-- The parts and their files, each with the code it models:
-- - Apperr, Httpx: internal/apperr, the modules' domain/errors.go, internal/common/httpx. Chains of
--   wrapped errors, errors.Is and errors.As, and the response that an error becomes.
-- - Text, Civil, Sort: what the code uses of Go's strings, unicode, utf8, time and sort.
-- - Store: PostgreSQL as tables of rows, the statements on them, and a request as an action that
--   reads the clock, draws ids, runs statements and hands confirmations to the notifier.
-- - Schema: the row types in model.go of each module's adapters/postgres and their conversions
--   (Schema, Schema.Participants), the statements on rows with their columns' types
--   (Schema.Statements), what is read back from a row (Schema.Columns), and the migrations in
--   migrate.go and internal/common/postgres (Schema.Migrations). The tables of Store hold the
--   domain's values; Schema.Storage ties them to the rows.
-- - Participant.Values, Participant.Person, Participant.Registration:
--   internal/participant/domain. Participant.Repository: internal/participant/adapters/postgres.
--   Participant.Service, Participant.Listing: internal/participant/service and its listing ByRace.
-- - Race.Entity, Race.Repository, Race.Service: internal/race/domain, adapters/postgres, service.
-- - User.Entity, User.Repository, User.Service: internal/user/domain, adapters/postgres, service.
-- - Auth.Token, Auth.Jwt, Auth.Repository, Auth.Service, Auth.Middleware, Auth.Security:
--   internal/auth/domain, its adapters jwt, postgres and middleware, internal/auth/service, and
--   internal/common/security.
-- - Report.Filter, Report.ReadModel, Report.Ports, Report.Repository, Report.Service:
--   internal/report/domain (filter.go, report.go), ports, adapters/postgres and service. The service
--   takes the record of its port, which the repository fills.
-- - The Rest module beside each of them: that part's adapters/rest, its forms, its handlers and what
--   they answer. Httpx.Request is what gin hands to them; Text.Numeral and Civil.Layout are the
--   numbers and dates in forms and responses.
-- - Participant.Notification: internal/participant/adapters/notification and internal/common/email.
-- - RateLimit: internal/common/ratelimit. Config: internal/common/config, in Config.Connection the
--   connection string and internal/common/postgres/postgres.go, and in Config.Startup cmd/api/main.go
--   and cmd/seed-admin/main.go: what runs before the first request, and how the process ends.
-- - Api: internal/common/server and the wiring of cmd/api/main.go: the routes, their guards, and
--   requests one after the other; Api.Engine has the root of the server and its log.
-- - Guarantee: relations between the tables before and after that every statement keeps, and so
--   every service, every handler and every sequence of requests. Guarantee.Soundness,
--   Guarantee.Tokens, Guarantee.Entries and Guarantee.Bounds are the four that the results use.
-- - Tests: concrete inputs.
--
-- How they interact: a service is an action over the tables of all modules, and calls the other
-- services and repositories as cmd/api/main.go wires them. A handler is such an action with a
-- response, and Api puts the handlers behind their guards on their routes. Between two statements of
-- a request the other sessions may change the tables in any way, and any statement may be lost; both
-- stand in the script of the world, one entry to a statement, so a result for every script is one
-- for every interleaving. Statements are atomic, as they are in the database, and there are no
-- transactions in the code. Ids are numbers, with 0 for the nil uuid; times are UTC. A race's date
-- loses its time of day in the tables, as its column does. The tables of Store keep an instant below
-- the microseconds of a timestamptz, where the rows of Schema cut it off, and a birth date as the form
-- of a registration gives it, a day without a time.
--
-- Bounds and fuel: the loop of confirm runs at most maxConfirmAttempts = 5 times, as in the code.
-- The loop over the days of a timeline has as much fuel as there are places in the calendar between
-- its ends, and the calendar moves on at least one place a day. A number is printed with one unit of
-- fuel more than its value, which is more than its digits. Go's int is an integer, with its
-- wrap-around at 64 bits written out where the code multiplies or adds what a client sent.
--
-- Parameters, for code that is not the repository's: the case tables beyond ASCII and net/mail
-- (Text.Platform), golang-jwt, bcrypt, SHA-256, random numbers and uuids (Auth.Library), the
-- database's collation and ILIKE (Report.Repository.Collation), x/time/rate
-- (RateLimit.RateLibrary), encoding/json and the layout of RFC 3339 (the fields of Api.Server),
-- gin's answer where no route fits (no_route), godotenv and time.ParseDuration (Config.Loader),
-- net/url and gorm's opening of a database (Config.Connection), AutoMigrate and the extensions of the
-- database server (Schema.Migrations.Postgres), html/template and the Resend client.
--
-- Not modelled: the ports of the modules other than the reports, since each has one implementation,
-- which the services call; sockets, signals and the recovery
-- from a panic, which are net/http's and gin's; logging but for the request log; that secrets are
-- compared in constant time; cancelled contexts other than as lost statements.
pub mod Prelude
pub mod Sort
pub mod Text
pub mod Apperr
pub mod Httpx
pub mod Civil
pub mod Participant
pub mod Race
pub mod User
pub mod Auth
pub mod Report
pub mod Store
pub mod Schema
pub mod Guarantee
pub mod RateLimit
pub mod Config
pub mod Api
pub mod Tests
