-- ===== src/Tests/Storage.antt =====
-- The schema on concrete data: a server that can install citext, and an AutoMigrate that creates what
-- is missing.
use go_finish_line_api.Prelude.{ℕ, ◌≡◌, refl, Bool, true, some, pos, [], find, ◌==◌, All}
use go_finish_line_api.Text.{Text, codes, text_eq}
use go_finish_line_api.Civil.{Time, midnight}
use go_finish_line_api.Apperr.{ok}
use go_finish_line_api.Race.Entity.{Race}
use go_finish_line_api.Race.Repository as RaceRows
use go_finish_line_api.User.Entity.{User}
use go_finish_line_api.User.Repository as UserRows
use go_finish_line_api.Auth.Token.{RefreshToken}
use go_finish_line_api.Auth.Repository as TokenRows
use go_finish_line_api.Participant.Values.{confirmed}
use go_finish_line_api.Participant.Person.{Participant}
use go_finish_line_api.Participant.Registration.{Registration}
use go_finish_line_api.Participant.Repository as People
use go_finish_line_api.Schema.{
  Table, timestamptz, to_race_model, to_user_model, to_refresh_token_model, RefreshTokenModel,
}
use go_finish_line_api.Schema.Participants.{to_participant_model, to_registration_model}
use go_finish_line_api.Schema.Statements
use go_finish_line_api.Schema.Refinement.{to_rows, Implements}
use go_finish_line_api.Schema.Storage.{FitsColumns, to_rows-Implements}
use go_finish_line_api.Schema.Migrations.{
  Catalog, Postgres, has_extension, has_table, has_key, run_migrations, dev_migrations,
}
use go_finish_line_api.Schema.Migrations.Catalogs.{create_missing, migrated, all_keys}
use go_finish_line_api.Schema.Migrations.Order.{run_migrations_complete}
use go_finish_line_api.Tests.Data.{platform, today, waiting_row, tables}

abbrev numbered_row : Registration
numbered_row = record waiting_row {
  status = confirmed;
  dorsal = some (pos 1);
  confirmed_at = some (midnight today);
}

tables-FitsColumns : FitsColumns tables
tables-FitsColumns = record {
  participants = ((refl, refl), tt);
  registrations = ((refl, tt), tt);
  races = ((refl, refl, refl), tt);
  users = (refl, tt);
  refresh_tokens = ((refl, tt, tt, refl), tt);
}

to_rows-Implements_example :
    ((p : Participant)
      → Implements
          (Statements.upsert_person platform (to_participant_model p))
          (People.upsert_sql platform p)
          tables)
    × Implements
        (Statements.insert_registration (to_registration_model numbered_row))
        (People.insert_sql numbered_row)
        tables
    × Implements
        (Statements.update_registration (to_registration_model numbered_row))
        (People.update_sql numbered_row)
        tables
    × ((id : ℕ) → Implements (Statements.delete_registration id) (People.delete_sql id) tables)
    × ((r : Race)
        → Implements (Statements.upsert_race (to_race_model r)) (RaceRows.upsert_sql r) tables)
    × ((slug : Text) → Implements (Statements.delete_race slug) (RaceRows.delete_sql slug) tables)
    × ((u : User)
        → Implements
            (Statements.insert_user platform (to_user_model u))
            (UserRows.insert_sql platform u)
            tables)
    × ((id : ℕ) (hash : Text)
        → Implements
            (Statements.update_user_password id hash)
            (UserRows.update_password_sql id hash)
            tables)
    × ((t : RefreshToken)
        → Implements
            (Statements.insert_token (to_refresh_token_model t))
            (TokenRows.insert_sql t)
            tables)
    × ((id : ℕ) (now : Time)
        → Implements
            (Statements.rotate_token id (timestamptz now))
            (TokenRows.rotate_sql id now)
            tables)
    × ((p : RefreshTokenModel → Bool) (now : Time)
        → Implements
            (Statements.revoke_tokens p (timestamptz now))
            (TokenRows.revoke_sql (λ t. p (to_refresh_token_model t)) now)
            tables)
    × ((id : ℕ)
        → Statements.read_registration id (to_rows tables)
          ≡ find (λ r. r.id == id) tables.registrations)
    × ((id : ℕ)
        → Statements.read_person id (to_rows tables) ≡ find (λ p. p.id == id) tables.participants)
    × ((id : ℕ) → Statements.read_race id (to_rows tables) ≡ find (λ q. q.id == id) tables.races)
    × ((id : ℕ) → Statements.read_user id (to_rows tables) ≡ find (λ u. u.id == id) tables.users)
    × ((hash : Text)
        → Statements.read_token hash (to_rows tables)
          ≡ find (λ t. text_eq t.token_hash hash) tables.refresh_tokens)
to_rows-Implements_example = to_rows-Implements platform tables numbered_row refl tables-FitsColumns

abbrev server : Postgres
server = record {
  available = λ e. true;
  auto_migrate = λ ts c. some (record c { tables = create_missing ts c.tables });
}

abbrev empty_catalog : Catalog
empty_catalog = record { extensions = []; tables = []; keys = [] }

run_migrations_complete_example :
    (run_migrations server dev_migrations empty_catalog ≡ ok (migrated empty_catalog))
    × (run_migrations server dev_migrations (migrated empty_catalog) ≡ ok (migrated empty_catalog))
    × (has_extension (codes "citext") (migrated empty_catalog) ≡ true)
    × ((t : Table) → has_table t (migrated empty_catalog).tables ≡ true)
    × All (λ k. has_key k.name (migrated empty_catalog).keys ≡ true) all_keys
run_migrations_complete_example =
    run_migrations_complete server (λ ts c there. refl) empty_catalog refl
