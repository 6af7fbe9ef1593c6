-- ===== src/Guarantee/Entries.antt =====
-- A registration that stands in the table stays in it as it is: a request changes and takes back no
-- row but the one that it entered itself, whose id no other row can have.
use go_finish_line_api.Prelude.{
  none, ℕ, ◌≡◌, ◌≢◌, ◌∙◌, false, not, Option, some, List, [], ◌∷◌, ◌++◌, map, any, select, find,
  ◌==◌, ℤ, Bool-cases, inl, inr, arith,
}
use go_finish_line_api.Text.{Platform}
use go_finish_line_api.Civil.{Time}
use go_finish_line_api.Apperr.{ok, wrap}
use go_finish_line_api.Race.Entity.{Race}
use go_finish_line_api.Race.Repository as RaceRows
use go_finish_line_api.User.Repository as UserRows
use go_finish_line_api.Auth.Repository as TokenRows
use go_finish_line_api.Participant.Person.{Participant}
use go_finish_line_api.Participant.Values.{Status}
use go_finish_line_api.Participant.Registration.{Registration}
use go_finish_line_api.Participant.Repository as Rows
use go_finish_line_api.Participant.Repository.{confirm_row}
use go_finish_line_api.Participant.Repository.Sound.{IsRow}
use go_finish_line_api.Participant.Service.{RegisterInput, register, confirm_or_undo}
use go_finish_line_api.Guarantee.Heeding.{heeding, heeding-IsKept, heeding-Enters}
use go_finish_line_api.Guarantee.Elsewhere.{
  upsert_sql-SameEvents, insert_user-SameEvents, update_password_sql-SameEvents, insert_token_lem,
  upsert_race_lem, delete_race_lem,
}
use go_finish_line_api.Guarantee.Confirmations.{confirm_or_undo-Keeps}
use go_finish_line_api.Guarantee.Registrations
use go_finish_line_api.Guarantee.Registrations.{entry}
use go_finish_line_api.Guarantee.{
  others, Guarantee, keeping, IsKept, Owns, Trusts, Keeps, call-Kept, Kept-after, Keeps-on_err,
}
use go_finish_line_api.Store.{Db, World, call, this_interlude, on_err}

-- The registration that is read by an id.
abbrev pub entry_at : ℕ → Db → Option Registration
entry_at id db = find (λ r. r.id == id) db.registrations

-- The registration of that id, if there is one, stays as it is.
abbrev pub Lasts : ℕ → Db → Db → Type 0
Lasts id a b = (r : Registration) → entry_at id a ≡ some r → entry_at id b ≡ some r

Lasts-elsewhere : (id : ℕ) (a b : Db) → b.registrations ≡ a.registrations → Lasts id a b
Lasts-elsewhere id a b h r has = ground (arith, h, has)

pub Lasts-IsKept : (id : ℕ) → IsKept (keeping (Lasts id))
unfolding TokenRows.rotate_sql TokenRows.revoke_sql
Lasts-IsKept id = record {
  same = λ db r has. has;
  through = λ a b c f g r has. g r (f r has);
  others = λ i db t. t db;
  person = λ pf p db.
      Lasts-elsewhere id db (Rows.upsert_sql pf p db).1 (upsert_sql-SameEvents pf p db).0;
  race =
      λ r db admitted. Lasts-elsewhere id db (RaceRows.upsert_sql r db).1 (upsert_race_lem r db).0;
  race_gone =
      λ slug db. Lasts-elsewhere id db (RaceRows.delete_sql slug db).1 (delete_race_lem slug db).0;
  account = λ pf u db.
      Lasts-elsewhere id db (UserRows.insert_sql pf u db).1 (insert_user-SameEvents pf u db).0;
  password = λ n hash db.
      Lasts-elsewhere id db (UserRows.update_password_sql n hash db).1
        (update_password_sql-SameEvents n hash db).0;
  token = λ t db. Lasts-elsewhere id db (TokenRows.insert_sql t db).1 (insert_token_lem t db).0;
  rotated = λ n at db r has. has;
  revoked = λ p at db r has. has;
}

find-append :
    (id : ℕ) (q : Registration) (rows : List Registration) (r : Registration)
    → find (λ r. r.id == id) rows ≡ some r
    → find (λ r. r.id == id) (rows ++ q ∷ []) ≡ some r
find-append id q [] r h = ground arith
find-append id q (x ∷ rows) r h = ground (arith, find-append id q rows r)

find-select :
    (id own : ℕ) (rows : List Registration) (r : Registration)
    → id ≢ own
    → find (λ r. r.id == id) rows ≡ some r
    → find (λ r. r.id == id) (select (λ r. not (r.id == own)) rows) ≡ some r
find-select id own [] r apart h = ground arith
find-select id own (x ∷ rows) r apart h = ground (arith, find-select id own rows r apart, apart)

find-confirm_row :
    (id own : ℕ) (status : Status) (dorsal : Option ℤ) (at : Option Time) (rows : List Registration)
    (r : Registration)
    → id ≢ own
    → find (λ r. r.id == id) rows ≡ some r
    → find (λ r. r.id == id) (map (confirm_row own status dorsal at) rows) ≡ some r
find-confirm_row id own status dorsal at [] r apart h = ground arith
find-confirm_row id own status dorsal at (x ∷ rows) r apart h =
    ground (arith, find-confirm_row id own status dorsal at rows r apart, apart)

entered-Lasts : (id : ℕ) (q : Registration) (db : Db) → Lasts id db (Rows.insert_sql q db).1
unfolding Rows.insert_sql
entered-Lasts id q db r has = ground (arith, find-append id q db.registrations r has, has)

confirmed-Lasts :
    (id own : ℕ) (q : Registration) (db : Db)
    → id ≢ own
    → q.id ≡ own
    → Lasts id db (Rows.update_sql q db).1
unfolding Rows.update_sql
confirmed-Lasts id own q db apart mine r has =
    elim (Bool-cases (Rows.dorsal_in_use q.id q.dorsal db.registrations)) [
      | inl taken ↦ rw taken has
      | inr free ↦ rw free (
          find-confirm_row id q.id q.status q.dorsal q.confirmed_at db.registrations r
            (λ same. apart (same ∙ mine)) has)
    ]

Lasts-Owns : (capacity : ℤ) (id own : ℕ) → id ≢ own → Owns (keeping (Lasts id)) capacity own
unfolding Rows.delete_sql
Lasts-Owns capacity id own apart = record {
  withdrawn = λ db r has. find-select id own db.registrations r apart has;
  confirmed = λ q db mine low good. confirmed-Lasts id own q db apart mine;
}

-- A row that was entered beside another has another id.
unclashed :
    (id : ℕ) (q : Registration) (rows : List Registration) (r : Registration)
    → any (Rows.clashes q) rows ≡ false
    → find (λ r. r.id == id) rows ≡ some r
    → id ≢ q.id
unfolding Rows.clashes
unclashed id q [] r free h same = ground arith
unclashed id q (x ∷ rows) r free h same = ground (arith, unclashed id q rows r)

create-free :
    (q : Registration) (w : World) (a : Unit {0})
    → (on_err (wrap "creating registration") (Rows.create q) w).0 ≡ ok a
    → any (Rows.clashes q) ((this_interlude w.script).others w.db).registrations ≡ false
unfolding Rows.create Rows.insert_sql call
create-free q w a done = ground arith

create-fresh :
    (id : ℕ) (q : Registration) (w : World) (r : Registration) (a : Unit {0})
    → Trusts (keeping (Lasts id)) w.script
    → entry_at id w.db ≡ some r
    → (on_err (wrap "creating registration") (Rows.create q) w).0 ≡ ok a
    → id ≢ q.id
create-fresh id q w r a t has done =
    let before = (this_interlude w.script).others w.db in
    unclashed id q before.registrations r (create-free q w a done)
      (others (keeping (Lasts id)) (Lasts-IsKept id) w.script w.db t r has)

module _ (id : ℕ) where
  abbrev lasting : Guarantee
  lasting = keeping (Lasts id)

  create-Keeps : (q : Registration) → Keeps lasting (Rows.create q)
  unfolding Rows.create
  create-Keeps q w s =
      call-Kept lasting (Lasts-IsKept id) (Rows.insert_sql q) (entered-Lasts id q) w s

  entry-lasts :
      (q : Registration) (race : Race) (saved : Participant) (w : World) (r : Registration)
      → Trusts lasting w.script
      → entry_at id w.db ≡ some r
      → entry_at id (entry q race saved w).1.db ≡ some r
  entry-lasts q race saved w r t has =
      let made = on_err (wrap "creating registration") (Rows.create q) in
      (Kept-after lasting (Lasts-IsKept id) (λ _. confirm_or_undo q.id saved race) (made w).0 w
          (made w).1 (Keeps-on_err lasting (Lasts-IsKept id) _ (Rows.create q) (create-Keeps q) w t)
          λ a done.
            confirm_or_undo-Keeps lasting (Lasts-IsKept id) race q.id
              (Lasts-Owns race.capacity id q.id (create-fresh id q w r a t has done)) saved).kept
        r has

  entry-Keeps :
      (q : Registration) (race : Race) (saved : Participant)
      → q.dorsal ≡ none
      → IsRow q
      → Keeps lasting (entry q race saved)
  entry-Keeps q race saved blank good w t =
      let heeds = heeding lasting.trust in
      record {
        kept = λ r has. entry-lasts q race saved w r t has;
        trusts =
            (Registrations.entry-Keeps heeds (heeding-IsKept lasting.trust)
              (heeding-Enters lasting.trust) q race saved blank good w t).trusts;
      }

  pub register-Keeps : (pf : Platform) (input : RegisterInput) → Keeps lasting (register pf input)
  register-Keeps = Registrations.register-Keeps_of lasting (Lasts-IsKept id) entry-Keeps
