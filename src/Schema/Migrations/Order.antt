-- ===== src/Schema/Migrations/Order.antt =====
-- The order of the migrations: each foreign key finds its tables, and each table its extension.
use go_finish_line_api.Prelude.{
  ◌≡◌, refl, true, some, List, [], ◌∷◌, Bool-cases, inl, inr, All, ap, ◌∙◌,
}
use go_finish_line_api.Text.{codes}
use go_finish_line_api.Apperr.{ok}
use go_finish_line_api.Schema.{Table, users, refresh_tokens, races, participants, registrations}
use go_finish_line_api.Schema.Migrations.{
  Catalog, Postgres, has_extension, has_table, has_key, create_extension, migrate_users,
  migrate_refresh_tokens, migrate_races, migrate_participants, fk_refresh_tokens_user,
  fk_registrations_participant, fk_registrations_race, add_keys, required_extensions,
  enable_extensions, run_modules, run_migrations, dev_migrations,
}
use go_finish_line_api.Schema.Migrations.Catalogs.{
  create, create_missing, with_key, with_extension, migrated, has_table-create, create-keeps,
  add_key-with_key, has_extension-with_extension, has_table-create_missing, all_keys, migrated_keys,
  migrated_done,
}

enable_extensions_lem :
    (pg : Postgres) (c : Catalog)
    → pg.available (codes "citext") ≡ true
    → enable_extensions pg required_extensions c
      ≡ ok (record c { extensions = with_extension (codes "citext") c.extensions })
unfolding enable_extensions create_extension
enable_extensions_lem pg c h = elim (Bool-cases (has_extension (codes "citext") c)) [
  | inl there ↦ rw there refl
  | inr missing ↦ rw (missing, h) refl
]

module _ (pg : Postgres)
    (creates : (ts : List Table) (c : Catalog)
      → has_extension (codes "citext") c ≡ true
      → pg.auto_migrate ts c ≡ some (record c { tables = create_missing ts c.tables })) where
  migrate_users_lem :
      (c : Catalog)
      → has_extension (codes "citext") c ≡ true
      → migrate_users pg c ≡ ok (record c { tables = create users c.tables })
  unfolding migrate_users
  migrate_users_lem c e = rw (creates (users ∷ []) c e) refl

  migrate_refresh_tokens_lem :
      (c : Catalog)
      → has_extension (codes "citext") c ≡ true
      → has_table users c.tables ≡ true
      → migrate_refresh_tokens pg c
        ≡ ok (record c {
          tables = create refresh_tokens c.tables;
          keys = with_key fk_refresh_tokens_user c.keys;
        })
  unfolding migrate_refresh_tokens
  migrate_refresh_tokens_lem c e u =
      let made = record c { tables = create refresh_tokens c.tables } in
      rw
        (
          creates (refresh_tokens ∷ []) c e,
          add_key-with_key fk_refresh_tokens_user made (has_table-create refresh_tokens c.tables)
              (create-keeps users refresh_tokens c.tables u),
        )
        refl

  migrate_races_lem :
      (c : Catalog)
      → has_extension (codes "citext") c ≡ true
      → migrate_races pg c ≡ ok (record c { tables = create races c.tables })
  unfolding migrate_races
  migrate_races_lem c e = rw (creates (races ∷ []) c e) refl

  migrate_participants_lem :
      (c : Catalog)
      → has_extension (codes "citext") c ≡ true
      → has_table races c.tables ≡ true
      → migrate_participants pg c
        ≡ ok (record c {
          tables = create registrations (create participants c.tables);
          keys = with_key fk_registrations_race (with_key fk_registrations_participant c.keys);
        })
  unfolding migrate_participants add_keys
  migrate_participants_lem c e r =
      let tables = create participants c.tables in
      let made = record c { tables = create registrations tables } in
      let next = record made { keys = with_key fk_registrations_participant c.keys } in
      let here = has_table-create registrations tables in
      let people =
        create-keeps participants registrations tables (has_table-create participants c.tables) in
      let held =
        create-keeps races registrations tables (create-keeps races participants c.tables r) in
      rw
        (
          creates (participants ∷ registrations ∷ []) c e,
          add_key-with_key fk_registrations_participant made here people,
          add_key-with_key fk_registrations_race next here held,
        )
        refl

  run_migrations_lem :
      (c : Catalog)
      → pg.available (codes "citext") ≡ true
      → run_migrations pg dev_migrations c ≡ ok (migrated c)
  unfolding run_migrations dev_migrations run_modules
  run_migrations_lem c h =
      let es = with_extension (codes "citext") c.extensions in
      let e = has_extension-with_extension (codes "citext") c.extensions in
      let c1 = record c { extensions = es } in
      let c2 = record c1 { tables = create users c.tables } in
      let c3 = record c2 {
        tables = create refresh_tokens c2.tables;
        keys = with_key fk_refresh_tokens_user c.keys;
      } in
      let c4 = record c3 { tables = create races c3.tables } in
      rw
        (
          enable_extensions_lem pg c h,
          migrate_users_lem c1 e,
          migrate_refresh_tokens_lem c2 e (has_table-create users c.tables),
          migrate_races_lem c3 e,
          migrate_participants_lem c4 e (has_table-create races c3.tables),
        )
        refl

-- Where the server has the extension citext, and AutoMigrate creates the tables that are missing
-- once that extension is there, the migrations in the order of the program succeed on every
-- catalog: afterwards the extension, the five tables and the three foreign keys are there, and
-- running them again changes nothing.
pub run_migrations_complete :
    (pg : Postgres)
    (creates : (ts : List Table) (c : Catalog)
      → has_extension (codes "citext") c ≡ true
      → pg.auto_migrate ts c ≡ some (record c { tables = create_missing ts c.tables }))
    (c : Catalog)
    → pg.available (codes "citext") ≡ true
    → (run_migrations pg dev_migrations c ≡ ok (migrated c))
      × (run_migrations pg dev_migrations (migrated c) ≡ ok (migrated c))
      × (has_extension (codes "citext") (migrated c) ≡ true)
      × ((t : Table) → has_table t (migrated c).tables ≡ true)
      × All (λ k. has_key k.name (migrated c).keys ≡ true) all_keys
run_migrations_complete pg creates c h = (
  run_migrations_lem pg creates c h,
  run_migrations_lem pg creates (migrated c) h ∙ ap ok (migrated_done c),
  has_extension-with_extension (codes "citext") c.extensions,
  λ t. has_table-create_missing t c.tables,
  migrated_keys c,
)
