-- ===== src/Guarantee/Elsewhere.antt =====
-- The tables that a statement leaves alone.
use go_finish_line_api.Prelude.{ℕ, ◌≡◌, arith}
use go_finish_line_api.Text.{Text, Platform}
use go_finish_line_api.Race.Entity.{Race}
use go_finish_line_api.Race.Repository as RaceRows
use go_finish_line_api.User.Entity.{User}
use go_finish_line_api.User.Repository as UserRows
use go_finish_line_api.Auth.Token.{RefreshToken}
use go_finish_line_api.Auth.Repository as TokenRows
use go_finish_line_api.Participant.Person.{Participant}
use go_finish_line_api.Participant.Registration.{Registration}
use go_finish_line_api.Participant.Repository as Rows
use go_finish_line_api.Store.{Db}

-- The registrations, the races and the refresh tokens are as they were.
abbrev pub SameEvents : Db → Db → Type 0
SameEvents a b =
    (b.registrations ≡ a.registrations)
    × (b.races ≡ a.races)
    × (b.refresh_tokens ≡ a.refresh_tokens)

pub upsert_sql-SameEvents :
    (pf : Platform) (p : Participant) (db : Db) → SameEvents db (Rows.upsert_sql pf p db).1
unfolding Rows.upsert_sql
upsert_sql-SameEvents pf p db = (ground arith, ground arith, ground arith)

pub insert_user-SameEvents :
    (pf : Platform) (u : User) (db : Db) → SameEvents db (UserRows.insert_sql pf u db).1
unfolding UserRows.insert_sql
insert_user-SameEvents pf u db = (ground arith, ground arith, ground arith)

pub update_password_sql-SameEvents :
    (id : ℕ) (hash : Text) (db : Db) → SameEvents db (UserRows.update_password_sql id hash db).1
unfolding UserRows.update_password_sql
update_password_sql-SameEvents id hash db = (ground arith, ground arith, ground arith)

pub insert_token_lem :
    (t : RefreshToken) (db : Db)
    → ((TokenRows.insert_sql t db).1.registrations ≡ db.registrations)
      × ((TokenRows.insert_sql t db).1.races ≡ db.races)
unfolding TokenRows.insert_sql
insert_token_lem t db = (ground arith, ground arith)

pub upsert_race_lem :
    (r : Race) (db : Db)
    → ((RaceRows.upsert_sql r db).1.registrations ≡ db.registrations)
      × ((RaceRows.upsert_sql r db).1.refresh_tokens ≡ db.refresh_tokens)
unfolding RaceRows.upsert_sql RaceRows.upsert_columns
upsert_race_lem r db = (ground arith, ground arith)

pub delete_race_lem :
    (slug : Text) (db : Db)
    → ((RaceRows.delete_sql slug db).1.registrations ≡ db.registrations)
      × ((RaceRows.delete_sql slug db).1.refresh_tokens ≡ db.refresh_tokens)
unfolding RaceRows.delete_sql
delete_race_lem slug db = (ground arith, ground arith)

pub insert_sql-refresh_tokens :
    (r : Registration) (db : Db) → (Rows.insert_sql r db).1.refresh_tokens ≡ db.refresh_tokens
unfolding Rows.insert_sql
insert_sql-refresh_tokens r db = ground arith

pub update_sql-refresh_tokens :
    (r : Registration) (db : Db) → (Rows.update_sql r db).1.refresh_tokens ≡ db.refresh_tokens
unfolding Rows.update_sql
update_sql-refresh_tokens r db = ground arith
