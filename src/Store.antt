-- ===== src/Store.antt =====
-- The state that the modules share, in PostgreSQL: the tables, as lists of rows in the order of
-- insertion, and the way in which a request runs over them. Statements are atomic; between two
-- statements of one request other sessions may change the tables, and a statement may fail below
-- the program (no connection, a timeout). Both are written in a script, one entry to a statement.
pub mod Laws
use go_finish_line_api.Prelude.{
  ℕ, ◌+◌, String, Bool, false, none, some, find, List, [], ◌∷◌, if◌then◌else◌,
}
use go_finish_line_api.Civil.{Time}
use go_finish_line_api.Apperr.{Err, signal, wrap, failure, Result, ok, err}
use go_finish_line_api.Race.Entity.{Race}
use go_finish_line_api.User.Entity.{User}
use go_finish_line_api.Auth.Token.{RefreshToken}
use go_finish_line_api.Participant.Person.{Participant}
use go_finish_line_api.Participant.Registration.{Registration}

pub record Db : Type 0 where
  pub participants : List Participant
  pub registrations : List Registration
  pub races : List Race
  pub users : List User
  pub refresh_tokens : List RefreshToken

-- What gorm answers: a value, or one of its errors (`TranslateError` is on).
pub data Answer (A : Type 0) : Type 0 where
  row : A → Answer A
  duplicated_key record_not_found failed : Answer A

-- One SQL statement.
abbrev pub Sql : Type 0 → Type 0
Sql A = Db → Answer A × Db

-- What happens before a statement runs, and whether it is lost.
pub record Interlude : Type 0 where
  pub others : Db → Db
  pub fails : Bool

-- A confirmation that was handed to the notifier.
pub record Notice : Type 0 where
  pub person : Participant
  pub registration : Registration
  pub race : Race

-- `ticks` and `drawn` count the readings of the clock and the ids that were drawn.
pub record World : Type 0 where
  pub db : Db
  pub script : List Interlude
  pub clock : ℕ → Time
  pub ticks : ℕ
  pub ids : ℕ → ℕ
  pub drawn : ℕ
  pub outbox : List Notice

abbrev pub Action : Type 0 → Type 0
Action A = World → Result A × World

infixl 5 ◌>>=◌ ◌>>◌
abbrev pub ◌>>=◌ : {A B : Type 0} → Action A → (A → Action B) → Action B
◌>>=◌ m f w = let (r, w') = m w in elim r [ ok a ↦ f a w' | err e ↦ (err e, w') ]

abbrev pub ◌>>◌ : {B : Type 0} → Action (Unit {0}) → Action B → Action B
m >> k = m >>= λ _. k

abbrev pub pure : {A : Type 0} → A → Action A
pure a w = (ok a, w)

abbrev pub throw : {A : Type 0} → Err → Action A
throw e w = (err e, w)

-- A step that touches no state.
abbrev pub lift : {A : Type 0} → Result A → Action A
lift r w = (r, w)

-- `if err != nil { return …, fmt.Errorf("context: %w", err) }`
abbrev pub on_err : {A : Type 0} → (Err → Err) → Action A → Action A
on_err f m w = let (r, w') = m w in elim r [ ok a ↦ (ok a, w') | err e ↦ (err (f e), w') ]

-- time.Now and uuid.New
abbrev pub time_now : Action Time
time_now w = (ok (w.clock w.ticks), record w { ticks = w.ticks + 1 })

abbrev pub new_uuid : Action ℕ
new_uuid w = (ok (w.ids w.drawn), record w { drawn = w.drawn + 1 })

-- Where the script has ended nothing else happens.
abbrev quiet : Interlude
quiet = record { others = λ db. db; fails = false }

abbrev pub this_interlude : List Interlude → Interlude
this_interlude [] = quiet
this_interlude (i ∷ is) = i

abbrev pub later : List Interlude → List Interlude
later [] = []
later (i ∷ is) = is

-- The other sessions' changes come first; a lost statement changes nothing.
unfoldable pub call : {A : Type 0} → Sql A → World → Answer A × World
call stmt w =
    let i = this_interlude w.script in
    let before = i.others w.db in
    let rest = later w.script in
    if i.fails
    then (failed, record w { db = before; script = rest })
    else let (answer, db) = stmt before in (answer, record w { db = db; script = rest })

-- A failure below the program, with the context that the adapter adds.
abbrev pub sql_error : String → Err
sql_error context = wrap context (signal failure)

abbrev pub read_answer : {A : Type 0} → (duplicate missing : Err) → String → Answer A → Result A
read_answer duplicate missing context (row a) = ok a
read_answer duplicate missing context duplicated_key = err duplicate
read_answer duplicate missing context record_not_found = err missing
read_answer duplicate missing context failed = err (sql_error context)

-- A statement, what its errors become, and the context for the failures.
abbrev pub query : {A : Type 0} → (duplicate missing : Err) → String → Sql A → Action A
query duplicate missing context stmt w =
    let (answer, w') = call stmt w in (read_answer duplicate missing context answer, w')

-- A statement of which the adapter tells no error apart.
abbrev pub exec : {A : Type 0} → String → Sql A → Action A
exec context = query (sql_error context) (sql_error context) context

-- `First(&m, …)`
abbrev pub first : {A B : Type 0} → (Db → List A) → (A → Bool) → (A → B) → Sql B
first table p read db = elim (find p (table db)) [
  | none ↦ (record_not_found, db)
  | some r ↦ (row (read r), db)
]
