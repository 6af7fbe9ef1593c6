-- ===== src/Schema/Migrations.antt =====
-- internal/common/postgres/migrate.go and the migrate.go of each module: extensions, tables and
-- foreign keys, in the order in which cmd/api/main.go registers them. AutoMigrate is gorm's, and
-- the extensions that can be installed are the database server's.
pub mod Catalogs
pub mod Order
use go_finish_line_api.Prelude.{
  String, Bool, true, false, ◌&&◌, Option, none, some, List, [], ◌∷◌, ◌++◌, any, if◌then◌else◌,
}
use go_finish_line_api.Text.{Text, codes, text_eq}
use go_finish_line_api.Apperr.{Result, ok, err, wrap, signal, failure, ◌>>=◌}
use go_finish_line_api.Schema.{
  Table, users, refresh_tokens, races, participants, registrations, table_name,
}

pub data OnDelete : Type 0 where
  cascade restrict : OnDelete

pub record ForeignKey : Type 0 where
  pub name : Text
  pub table : Table
  pub references : Table
  pub on_delete : OnDelete

-- What pg_extension, pg_class and pg_constraint hold of it.
pub record Catalog : Type 0 where
  pub extensions : List Text
  pub tables : List Table
  pub keys : List ForeignKey

pub record Postgres : Type 0 where
  pub available : Text → Bool
  pub auto_migrate : List Table → Catalog → Option Catalog

abbrev pub has_extension : Text → Catalog → Bool
has_extension name c = any (λ e. text_eq e name) c.extensions

abbrev pub has_table : Table → List Table → Bool
has_table t tables = any (λ u. text_eq (table_name u) (table_name t)) tables

abbrev pub has_key : Text → List ForeignKey → Bool
has_key name keys = any (λ k. text_eq k.name name) keys

-- CREATE EXTENSION IF NOT EXISTS
unfoldable pub create_extension : Postgres → Text → Catalog → Option Catalog
create_extension pg name c =
    if has_extension name c
    then some c
    else if pg.available name
    then some (record c { extensions = c.extensions ++ name ∷ [] })
    else none

-- ALTER TABLE … ADD CONSTRAINT, IF NOT EXISTS one of the name
unfoldable pub add_key : ForeignKey → Catalog → Option Catalog
add_key k c =
    if has_key k.name c.keys
    then some c
    else if has_table k.table c.tables && has_table k.references c.tables
    then some (record c { keys = c.keys ++ k ∷ [] })
    else none

-- `if err := …; err != nil { return fmt.Errorf("context: %w", err) }`
abbrev pub or_wrapped : String → Option Catalog → Result Catalog
or_wrapped context none = err (wrap context (signal failure))
or_wrapped context (some c) = ok c

-- `MigrateFunc`
abbrev pub MigrateFunc : Type 0
MigrateFunc = Postgres → Catalog → Result Catalog

unfoldable pub migrate_users : MigrateFunc
migrate_users pg c = or_wrapped "migrating users table" (pg.auto_migrate (users ∷ []) c)

abbrev pub fk_refresh_tokens_user : ForeignKey
fk_refresh_tokens_user = record {
  name = codes "fk_refresh_tokens_user";
  table = refresh_tokens;
  references = users;
  on_delete = cascade;
}

unfoldable pub migrate_refresh_tokens : MigrateFunc
unfolding add_key
migrate_refresh_tokens pg c = do
  made ← or_wrapped "migrating refresh_tokens table" (pg.auto_migrate (refresh_tokens ∷ []) c)
  or_wrapped "adding refresh_tokens user foreign key" (add_key fk_refresh_tokens_user made)

unfoldable pub migrate_races : MigrateFunc
migrate_races pg c = or_wrapped "migrating races table" (pg.auto_migrate (races ∷ []) c)

abbrev pub fk_registrations_participant : ForeignKey
fk_registrations_participant = record {
  name = codes "fk_registrations_participant";
  table = registrations;
  references = participants;
  on_delete = restrict;
}

abbrev pub fk_registrations_race : ForeignKey
fk_registrations_race = record {
  name = codes "fk_registrations_race";
  table = registrations;
  references = races;
  on_delete = restrict;
}

-- The loop over `fks`; the name of the key in the message is left out, here and for the extension.
unfoldable pub add_keys : List ForeignKey → Catalog → Result Catalog
unfolding add_key
add_keys [] c = ok c
add_keys (k ∷ ks) c = do made ← or_wrapped "adding foreign key" (add_key k c); add_keys ks made

unfoldable pub migrate_participants : MigrateFunc
unfolding add_keys
migrate_participants pg c = do
  made ←
      or_wrapped "migrating participant tables"
        (pg.auto_migrate (participants ∷ registrations ∷ []) c)
  add_keys (fk_registrations_participant ∷ fk_registrations_race ∷ []) made

abbrev pub required_extensions : List Text
required_extensions = codes "citext" ∷ []

unfoldable pub enable_extensions : Postgres → List Text → Catalog → Result Catalog
unfolding create_extension
enable_extensions pg [] c = ok c
enable_extensions pg (e ∷ es) c = do
  made ← or_wrapped "enabling extension" (create_extension pg e c)
  enable_extensions pg es made

abbrev module_migrated : Result Catalog → Result Catalog
module_migrated (ok c) = ok c
module_migrated (err e) = err (wrap "running module migration" e)

unfoldable pub run_modules : Postgres → List MigrateFunc → Catalog → Result Catalog
run_modules pg [] c = ok c
run_modules pg (migrate ∷ rest) c = do
  made ← module_migrated (migrate pg c)
  run_modules pg rest made

-- `RunMigrations`
unfoldable pub run_migrations : Postgres → List MigrateFunc → Catalog → Result Catalog
unfolding enable_extensions run_modules
run_migrations pg migrations c = do
  made ← enable_extensions pg required_extensions c
  run_modules pg migrations made

-- As cmd/api/main.go registers them.
unfoldable pub dev_migrations : List MigrateFunc
unfolding migrate_users migrate_refresh_tokens migrate_races migrate_participants
dev_migrations = migrate_users ∷ migrate_refresh_tokens ∷ migrate_races ∷ migrate_participants ∷ []
