-- ===== src/Guarantee/Bounds.antt =====
-- A bound on the capacities and the dorsals, and the statements that keep it.
use go_finish_line_api.Prelude.{
  ℕ, ◌≡◌, not, ◌&&◌, Option, none, some, List, [], ◌∷◌, map, any, ◌==◌, ℤ, ◌≤ℤ◌, All, All-append,
  All-select, Bool-cases, inl, inr, arith, if◌then◌else◌,
}
use go_finish_line_api.Text.{Text, text_eq}
use go_finish_line_api.Race.Entity.{Race}
use go_finish_line_api.Race.Repository as RaceRows
use go_finish_line_api.User.Repository as UserRows
use go_finish_line_api.Auth.Repository as TokenRows
use go_finish_line_api.Participant.Registration.{Registration}
use go_finish_line_api.Participant.Repository as Rows
use go_finish_line_api.Participant.Repository.{confirm_row}
use go_finish_line_api.Guarantee.Elsewhere.{
  upsert_sql-SameEvents, insert_user-SameEvents, update_password_sql-SameEvents, insert_token_lem,
}
use go_finish_line_api.Participant.Repository.Places.{AtMost}
use go_finish_line_api.Guarantee.{Guarantee, IsKept, Owns}
use go_finish_line_api.Store.{Db}

-- No race is larger than the bound, and no dorsal is above it.
pub record IsBounded (n : ℤ) (db : Db) : Type 0 where
  pub races : All (λ race. race.capacity ≤ℤ n) db.races
  pub dorsals : All (λ r. AtMost n r.dorsal) db.registrations

abbrev pub Bounded : ℤ → Db → Db → Type 0
Bounded n a b = IsBounded n a → IsBounded n b

-- Races within the bound may be synced.
abbrev pub bounding : ℤ → Guarantee
bounding n = record {
  holds = Bounded n;
  trust = λ i. (db : Db) → Bounded n db (i.others db);
  admits = λ r. r.capacity ≤ℤ n;
}

-- A statement on other tables.
Bounded-elsewhere :
    (n : ℤ) (a b : Db) → b.registrations ≡ a.registrations → b.races ≡ a.races → Bounded n a b
Bounded-elsewhere n a b rows races s = record {
  races = rw races s.races;
  dorsals = rw rows s.dorsals;
}

All-map {ℓ} :
    {A : Type ℓ} (P : A → Type 0) (f : A → A) (keep : (a : A) → P a → P (f a)) (xs : List A)
    → All P xs
    → All P (map f xs)
All-map P f keep [] h = tt
All-map P f keep (x ∷ xs) h = (keep x h.0, All-map P f keep xs h.1)

refreshed-small :
    (n : ℤ) (r old : Race)
    → r.capacity ≤ℤ n
    → old.capacity ≤ℤ n
    → (if text_eq old.document_id r.document_id then RaceRows.refresh r old else old).capacity ≤ℤ n
refreshed-small n r old new was = elim (Bool-cases (text_eq old.document_id r.document_id)) [
  | inl same ↦ rw same new
  | inr other ↦ rw other was
]

columns-Bounded :
    (n : ℤ) (r : Race) (db : Db) → r.capacity ≤ℤ n → Bounded n db (RaceRows.upsert_columns r db).1
unfolding RaceRows.upsert_columns
columns-Bounded n r db small s =
    elim (Bool-cases (any (λ old. text_eq old.document_id r.document_id) db.races)) [
      | inl known ↦ rw known (record {
        races =
            All-map (λ race. race.capacity ≤ℤ n) _ (λ old was. refreshed-small n r old small was)
              db.races s.races;
        dorsals = s.dorsals;
      })
      | inr new ↦ rw new (elim (Bool-cases (any (λ old. old.id == r.id) db.races)) [
        | inl taken ↦ rw taken s
        | inr free ↦ rw free (record {
          races = All-append (λ race. race.capacity ≤ℤ n) db.races (r ∷ []) s.races (small, tt);
          dorsals = s.dorsals;
        })
      ])
    ]

race-Bounded :
    (n : ℤ) (r : Race) (db : Db) → r.capacity ≤ℤ n → Bounded n db (RaceRows.upsert_sql r db).1
unfolding RaceRows.upsert_sql
race-Bounded n r db small s = elim (Bool-cases (RaceRows.fits_integer r.capacity)) [
  | inl fits ↦ rw fits (columns-Bounded n (RaceRows.stored r) db small s)
  | inr large ↦ rw large s
]

race_gone-Bounded : (n : ℤ) (slug : Text) (db : Db) → Bounded n db (RaceRows.delete_sql slug db).1
unfolding RaceRows.delete_sql
race_gone-Bounded n slug db s =
    elim (Bool-cases (
      any (λ r. text_eq r.document_id slug && any (λ g. g.race_id == r.id) db.registrations)
        db.races)) [
          | inl held ↦ rw held s
          | inr free ↦ rw free (record {
            races =
                All-select (λ race. race.capacity ≤ℤ n) (λ r. not (text_eq r.document_id slug))
                  db.races s.races;
            dorsals = s.dorsals;
          })
        ]

pub Bounded-IsKept : (n : ℤ) → IsKept (bounding n)
unfolding TokenRows.rotate_sql TokenRows.revoke_sql
Bounded-IsKept n = record {
  same = λ db s. s;
  through = λ a b c f g s. g (f s);
  others = λ i db t. t db;
  person = λ pf p db.
      let (rows, races, _) = upsert_sql-SameEvents pf p db in
      Bounded-elsewhere n db (Rows.upsert_sql pf p db).1 rows races;
  race = race-Bounded n;
  race_gone = race_gone-Bounded n;
  account = λ pf u db.
      let (rows, races, _) = insert_user-SameEvents pf u db in
      Bounded-elsewhere n db (UserRows.insert_sql pf u db).1 rows races;
  password = λ id hash db.
      let (rows, races, _) = update_password_sql-SameEvents id hash db in
      Bounded-elsewhere n db (UserRows.update_password_sql id hash db).1 rows races;
  token = λ t db.
      let (rows, races) = insert_token_lem t db in
      Bounded-elsewhere n db (TokenRows.insert_sql t db).1 rows races;
  rotated = λ id at db s. record { races = s.races; dorsals = s.dorsals };
  revoked = λ p at db s. record { races = s.races; dorsals = s.dorsals };
}

AtMost-trans : (n capacity : ℤ) (d : Option ℤ) → capacity ≤ℤ n → AtMost capacity d → AtMost n d
AtMost-trans n capacity none small h = tt
AtMost-trans n capacity (some d) small h = omega (arith, small, h)

pub entered-Bounded :
    (n : ℤ) (r : Registration) (db : Db) → AtMost n r.dorsal → Bounded n db (Rows.insert_sql r db).1
unfolding Rows.insert_sql
entered-Bounded n r db low s = elim (Bool-cases (any (Rows.clashes r) db.registrations)) [
  | inl clash ↦ rw clash s
  | inr free ↦
      rw free
        (elim (Bool-cases (
          any (λ p. p.id == r.participant_id) db.participants
          && any (λ race. race.id == r.race_id) db.races)) [
            | inl known ↦ rw known (record {
              races = s.races;
              dorsals =
                  All-append (λ q. AtMost n q.dorsal) db.registrations (r ∷ []) s.dorsals (low, tt);
            })
            | inr unknown ↦ rw unknown s
          ])
]

confirm_row-AtMost :
    (n : ℤ) (r q : Registration)
    → AtMost n r.dorsal
    → AtMost n q.dorsal
    → AtMost n (confirm_row r.id r.status r.dorsal r.confirmed_at q).dorsal
confirm_row-AtMost n r q new was = elim (Bool-cases (q.id == r.id)) [
  | inl same ↦ rw same new
  | inr other ↦ rw other was
]

confirmed-Bounded :
    (n : ℤ) (r : Registration) (db : Db) → AtMost n r.dorsal → Bounded n db (Rows.update_sql r db).1
unfolding Rows.update_sql
confirmed-Bounded n r db low s =
    elim (Bool-cases (Rows.dorsal_in_use r.id r.dorsal db.registrations)) [
      | inl taken ↦ rw taken s
      | inr free ↦ rw free (record {
        races = s.races;
        dorsals =
            All-map (λ q. AtMost n q.dorsal) _ (λ q was. confirm_row-AtMost n r q low was)
              db.registrations s.dorsals;
      })
    ]

pub Bounded-Owns : (n capacity : ℤ) (id : ℕ) → capacity ≤ℤ n → Owns (bounding n) capacity id
unfolding Rows.delete_sql
Bounded-Owns n capacity id small = record {
  withdrawn = λ db s. record {
    races = s.races;
    dorsals =
        All-select (λ q. AtMost n q.dorsal) (λ r. not (r.id == id)) db.registrations s.dorsals;
  };
  confirmed =
      λ r db mine low good. confirmed-Bounded n r db (AtMost-trans n capacity r.dorsal small low);
}
