-- ===== src/Guarantee/Soundness.antt =====
-- The invariant of the tables is a guarantee: a request that finds them sound leaves them sound.
use go_finish_line_api.Prelude.{ℕ, Bool-cases, inl, inr, any, ◌||◌, ◌==◌}
use go_finish_line_api.Text.{Text, Platform, citext_eq, text_eq}
use go_finish_line_api.User.Entity.{User}
use go_finish_line_api.User.Repository as UserRows
use go_finish_line_api.Auth.Token.{RefreshToken}
use go_finish_line_api.Auth.Repository as TokenRows
use go_finish_line_api.Participant.Repository.Sound.{
  IsSound, insert_sql-IsSound, delete_sql-IsSound, update_sql-IsSound,
}
use go_finish_line_api.Participant.Repository.References.{
  upsert_sql-IsSound, upsert_race-IsSound, delete_race-IsSound,
}
use go_finish_line_api.Guarantee.{keeping, IsKept, Enters}
use go_finish_line_api.Store.{Db}

abbrev pub Sound : Db → Db → Type 0
Sound a b = IsSound a → IsSound b

account-Sound : (pf : Platform) (u : User) (db : Db) → Sound db (UserRows.insert_sql pf u db).1
unfolding UserRows.insert_sql
account-Sound pf u db s =
    elim (Bool-cases (any (λ old. old.id == u.id || citext_eq pf old.email u.email) db.users)) [
      | inl taken ↦ rw taken s
      | inr free ↦ rw free (record { apart = s.apart; rows = s.rows; refers = s.refers })
    ]

password-Sound :
    (id : ℕ) (hash : Text) (db : Db) → Sound db (UserRows.update_password_sql id hash db).1
unfolding UserRows.update_password_sql
password-Sound id hash db s = elim (Bool-cases (any (λ u. u.id == id) db.users)) [
  | inl known ↦ rw known (record { apart = s.apart; rows = s.rows; refers = s.refers })
  | inr unknown ↦ rw unknown s
]

token-Sound : (t : RefreshToken) (db : Db) → Sound db (TokenRows.insert_sql t db).1
unfolding TokenRows.insert_sql
token-Sound t db s =
    elim (Bool-cases
      (any (λ old. old.id == t.id || text_eq old.token_hash t.token_hash) db.refresh_tokens)) [
        | inl clash ↦ rw clash s
        | inr free ↦ rw free (elim (Bool-cases (any (λ u. u.id == t.user_id) db.users)) [
          | inl known ↦ rw known (record { apart = s.apart; rows = s.rows; refers = s.refers })
          | inr unknown ↦ rw unknown s
        ])
      ]

pub Sound-IsKept : IsKept (keeping Sound)
unfolding TokenRows.rotate_sql TokenRows.revoke_sql
Sound-IsKept = record {
  same = λ db s. s;
  through = λ a b c f g s. g (f s);
  person = upsert_sql-IsSound;
  others = λ i db t. t db;
  race = λ r db admitted. upsert_race-IsSound r db;
  race_gone = delete_race-IsSound;
  account = account-Sound;
  password = password-Sound;
  token = token-Sound;
  rotated = λ id at db s. record { apart = s.apart; rows = s.rows; refers = s.refers };
  revoked = λ p at db s. record { apart = s.apart; rows = s.rows; refers = s.refers };
}

pub Sound-Enters : Enters (keeping Sound)
Sound-Enters = record {
  entered = insert_sql-IsSound;
  owned = λ capacity id. record {
    withdrawn = delete_sql-IsSound id;
    confirmed = λ r db mine low. update_sql-IsSound r db;
  };
}
