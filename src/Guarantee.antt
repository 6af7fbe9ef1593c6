-- ===== src/Guarantee.antt =====
-- What a request guarantees of the tables: a relation between the tables before it and after it,
-- and what it trusts the other sessions with. A relation that every statement of the program keeps
-- is kept by every service.
pub mod Confirmations
pub mod Registrations
pub mod Races
pub mod Accounts
pub mod Sessions
pub mod Reports
pub mod Handlers
pub mod Dashboard
pub mod Elsewhere
pub mod Heeding
pub mod Soundness
pub mod Tokens
pub mod Entries
pub mod Bounds
pub mod Capacity
use go_finish_line_api.Prelude.{
  ℤ, ◌≤ℤ◌, ℕ, String, ◌≡◌, refl, sym, subst, Bool, true, false, Option, none, some, List, [], ◌∷◌,
  All, find, Bool-cases, Option-cases, inl, inr, arith,
}
use go_finish_line_api.Text.{Text, Platform}
use go_finish_line_api.Civil.{Time}
use go_finish_line_api.Apperr.{Err, Result, ok, err, Result-cases}
use go_finish_line_api.Race.Entity.{Race}
use go_finish_line_api.Race.Repository as RaceRows
use go_finish_line_api.User.Entity.{User}
use go_finish_line_api.User.Repository as UserRows
use go_finish_line_api.Auth.Token.{RefreshToken}
use go_finish_line_api.Auth.Repository as TokenRows
use go_finish_line_api.Participant.Person.{Participant}
use go_finish_line_api.Participant.Registration.{Registration}
use go_finish_line_api.Participant.Repository as Rows
use go_finish_line_api.Participant.Repository.Places.{AtMost}
use go_finish_line_api.Participant.Repository.Sound.{IsRow}
use go_finish_line_api.Httpx.{Response}
use go_finish_line_api.Httpx.Request.{Handler, reply, or_bad_request}
use go_finish_line_api.Store.{
  Db, Interlude, Answer, Sql, World, Action, call, this_interlude, later, ◌>>=◌, first, lift,
  on_err, exec, query, time_now, new_uuid,
}

pub record Guarantee : Type 1 where
  pub holds : Db → Db → Type 0
  pub trust : Interlude → Type 0
  pub admits : Race → Type 0

-- The other sessions are trusted to keep what the request keeps, and any race may be synced.
abbrev pub keeping : (Db → Db → Type 0) → Guarantee
keeping R = record {
  holds = R;
  trust = λ i. (db : Db) → R db (i.others db);
  admits = λ r. Unit {0};
}

-- The laws of a guarantee: it goes through sequences, and each statement keeps it; those on
-- registrations have laws of their own.
pub record IsKept (G : Guarantee) : Type 0 where
  pub same : (db : Db) → G.holds db db
  pub through : (a b c : Db) → G.holds a b → G.holds b c → G.holds a c
  pub others : (i : Interlude) (db : Db) → G.trust i → G.holds db (i.others db)
  pub person : (pf : Platform) (p : Participant) (db : Db) → G.holds db (Rows.upsert_sql pf p db).1
  pub race : (r : Race) (db : Db) → G.admits r → G.holds db (RaceRows.upsert_sql r db).1
  pub race_gone : (slug : Text) (db : Db) → G.holds db (RaceRows.delete_sql slug db).1
  pub account : (pf : Platform) (u : User) (db : Db) → G.holds db (UserRows.insert_sql pf u db).1
  pub password :
      (id : ℕ) (hash : Text) (db : Db) → G.holds db (UserRows.update_password_sql id hash db).1
  pub token : (t : RefreshToken) (db : Db) → G.holds db (TokenRows.insert_sql t db).1
  pub rotated : (id : ℕ) (at : Time) (db : Db) → G.holds db (TokenRows.rotate_sql id at db).1
  pub revoked :
      (p : RefreshToken → Bool) (at : Time) (db : Db) → G.holds db (TokenRows.revoke_sql p at db).1

-- What a request does to the registration that it has entered under an id, for a race of a
-- capacity.
pub record Owns (G : Guarantee) (capacity : ℤ) (id : ℕ) : Type 0 where
  pub withdrawn : (db : Db) → G.holds db (Rows.delete_sql id db).1
  pub confirmed :
      (r : Registration) (db : Db)
      → r.id ≡ id
      → AtMost capacity r.dorsal
      → IsRow r
      → G.holds db (Rows.update_sql r db).1

-- The statements on registrations keep it, whatever the row.
pub record Enters (G : Guarantee) : Type 0 where
  pub entered : (r : Registration) (db : Db) → IsRow r → G.holds db (Rows.insert_sql r db).1
  pub owned : (capacity : ℤ) (id : ℕ) → Owns G capacity id

-- The other sessions are as the request trusts them to be.
abbrev pub Trusts : Guarantee → List Interlude → Type 0
Trusts G script = All G.trust script

-- From one world to another it is kept, and the sessions that are left to come are trusted too.
pub record Kept (G : Guarantee) (w w' : World) : Type 0 where
  pub kept : G.holds w.db w'.db
  pub trusts : Trusts G w'.script

-- An action of a service, or a handler.
abbrev pub Keeps : Guarantee → {A : Type 0} → (World → A × World) → Type 0
Keeps G m = (w : World) → Trusts G w.script → Kept G w (m w).1

module _ (G : Guarantee) (k : IsKept G) where
  Trusts-later : (script : List Interlude) → Trusts G script → Trusts G (later script)
  Trusts-later [] h = tt
  Trusts-later (i ∷ script) h = h.1

  pub others :
      (script : List Interlude) (db : Db)
      → Trusts G script
      → G.holds db ((this_interlude script).others db)
  others [] db h = k.same db
  others (i ∷ script) db h = k.others i db h.0

  pub call-Kept :
      {A : Type 0} (stmt : Sql A)
      → ((db : Db) → G.holds db (stmt db).1)
      → (w : World) → Trusts G w.script
      → Kept G w (call stmt w).1
  unfolding call
  call-Kept stmt keep w s = elim (Bool-cases (this_interlude w.script).fails) [
    | inl lost ↦
        rw lost (record { kept = others w.script w.db s; trusts = Trusts-later w.script s })
    | inr runs ↦ rw runs (record {
      kept =
          k.through w.db ((this_interlude w.script).others w.db) _ (others w.script w.db s)
            (keep _);
      trusts = Trusts-later w.script s;
    })
  ]

  pub here : (w : World) → Trusts G w.script → Kept G w w
  here w s = record { kept = k.same w.db; trusts = s }

  pub Kept-trans : (u v w : World) → Kept G u v → Kept G v w → Kept G u w
  Kept-trans u v w a b = record { kept = k.through u.db v.db w.db a.kept b.kept; trusts = b.trusts }

  pub first-Kept :
      {A B : Type 0} (table : Db → List A) (p : A → Bool) (read : A → B) (db : Db)
      → G.holds db (first table p read db).1
  first-Kept table p read db = elim (Option-cases (find p (table db))) [
    | inl missing ↦ rw (missing, first) (k.same db)
    | inr (r, found) ↦ rw (found, first) (k.same db)
  ]

  pub Kept-after :
      {A B : Type 0} (f : A → Action B) (r : Result A) (w v : World)
      → Kept G w v
      → ((a : A) → r ≡ ok a → Keeps G (f a))
      → Kept G w (◌>>=◌ (λ _. (r, v)) f v).1
  Kept-after f (ok a) w v h hf = Kept-trans w v (f a v).1 h (hf a refl v h.trusts)
  Kept-after f (err e) w v h hf = h

  pub Keeps-bind :
      {A B : Type 0} (m : Action A) (f : A → Action B)
      → Keeps G m
      → ((a : A) → Keeps G (f a))
      → Keeps G (m >>= f)
  Keeps-bind m f hm hf w s = Kept-after f (m w).0 w (m w).1 (hm w s) (λ a _. hf a)

  -- What follows a step that touches no state may use what it returned.
  pub Keeps-lift :
      {A B : Type 0} (r : Result A) (f : A → Action B)
      → ((a : A) → r ≡ ok a → Keeps G (f a))
      → Keeps G (lift r >>= f)
  Keeps-lift r f hf w s = Kept-after f r w w (here w s) hf

  pub Keeps-on_err : {A : Type 0} (g : Err → Err) (m : Action A) → Keeps G m → Keeps G (on_err g m)
  Keeps-on_err g m h w s = elim (Result-cases (m w).0) [
    | inl (a, good) ↦ rw (good, on_err) (h w s)
    | inr (e, bad) ↦ rw (bad, on_err) (h w s)
  ]

  pub time_now-Keeps : Keeps G time_now
  time_now-Keeps w s = record { kept = k.same w.db; trusts = s }

  pub new_uuid-Keeps : Keeps G new_uuid
  new_uuid-Keeps w s = record { kept = k.same w.db; trusts = s }

  pub pure-Keeps : {A : Type 0} (r : Result A) → Keeps G (lift r)
  pure-Keeps r w s = here w s

  -- A handler keeps what its service keeps.
  pub Keeps-reply :
      {A B : Type 0} (f : A → Response B) (m : Action A) → Keeps G m → Keeps G (reply f m)
  unfolding reply
  Keeps-reply f m h w s = h w s

  pub Keeps-or_bad_request :
      {A B : Type 0} (message : String) (read : Option A) (next : A → Handler B)
      → ((a : A) → Keeps G (next a))
      → Keeps G (or_bad_request message read next)
  Keeps-or_bad_request message none next h w s = here w s
  Keeps-or_bad_request message (some a) next h w s = h a w s
