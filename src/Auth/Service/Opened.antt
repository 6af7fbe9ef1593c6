-- ===== src/Auth/Service/Opened.antt =====
-- What a login leaves behind it.
use go_finish_line_api.Prelude.{
  ℕ, ◌+◌, ◌≡◌, refl, sym, ◌∙◌, false, ◌||◌, some, List, [], ◌∷◌, ◌++◌, any, find, ◌==◌, arith,
  Bool-cases, Option-cases, inl, inr, ◌⊎◌,
}
use go_finish_line_api.Text.{Text, text_eq, Platform}
use go_finish_line_api.Text.Laws.{text_eq_refl}
use go_finish_line_api.Civil.{Time}
use go_finish_line_api.Apperr.{ok, Result-cases}
use go_finish_line_api.User.Entity.{User}
use go_finish_line_api.User.Repository as Users
use go_finish_line_api.Auth.Token.{RefreshToken, is_used}
use go_finish_line_api.Auth.Library.{Library, Comparison, matches, mismatched, broken}
use go_finish_line_api.Auth.Security.{verify}
use go_finish_line_api.Auth.Jwt.{issue}
use go_finish_line_api.Auth.Repository.{insert_sql, create}
use go_finish_line_api.Auth.Service.{
  Settings, TokenPair, login, start_session, issue_token_pair, generate_token, store_token,
  new_token,
}
use go_finish_line_api.Auth.Service.Login.{account, login_unknown, login_mismatched}
use go_finish_line_api.Auth.Service.Rotation.{stored}
use go_finish_line_api.Store.{World, call, time_now, new_uuid}

find-new :
    (t : RefreshToken) (ts : List RefreshToken)
    → any (λ old. old.id == t.id || text_eq old.token_hash t.token_hash) ts ≡ false
    → find (λ q. text_eq q.token_hash t.token_hash) (ts ++ t ∷ []) ≡ some t
find-new t [] h = rw (text_eq_refl t.token_hash) refl
find-new t (old ∷ ts) h = ground (arith, find-new t ts, h)

-- A statement that stores a token and succeeds leaves it to be found by its hash.
create-stored :
    (t : RefreshToken) (w : World)
    → w.script ≡ []
    → (create t w).0 ≡ ok tt
    → stored t.token_hash (create t w).1 ≡ some t
unfolding create insert_sql call
create-stored t w quiet done =
    elim (Bool-cases
      (any (λ old. old.id == t.id || text_eq old.token_hash t.token_hash) w.db.refresh_tokens)) [
        | inl clash ↦ absurd (ground (arith, quiet, done, clash))
        | inr free ↦ elim (Bool-cases (any (λ u. u.id == t.user_id) w.db.users)) [
          | inr nobody ↦ absurd (ground (arith, quiet, done, free, nobody))
          | inl known ↦ ground (arith, quiet, free, known, find-new t w.db.refresh_tokens free)
        ]
      ]

-- A token that is not used, of the account and the hash.
pub record IsOpened (user_id : ℕ) (hash : Text) (v : World) (t : RefreshToken) : Type 0 where
  pub found : stored hash v ≡ some t
  pub owner : t.user_id ≡ user_id
  pub unused : is_used t ≡ false

new_token-unused :
    (lib : Library) (s : Settings) (id user_id family_id : ℕ) (raw : Text) (now : Time)
    → is_used (new_token lib s id user_id family_id raw now) ≡ false
unfolding is_used
new_token-unused lib s id user_id family_id raw now = refl

store_token-IsOpened :
    (lib : Library) (s : Settings) (user_id family_id : ℕ) (access : Text × Time) (raw : Text)
    (w v : World) (pair : TokenPair)
    → w.script ≡ []
    → store_token lib s user_id family_id access raw w ≡ (ok pair, v)
    → (t : RefreshToken) × IsOpened user_id (lib.sha256_hex pair.refresh_token) v t
unfolding store_token
store_token-IsOpened lib s user_id family_id access raw w v pair quiet done =
    let t = new_token lib s (w.ids w.drawn) user_id family_id raw (w.clock w.ticks) in
    let u = (new_uuid (time_now w).1).1 in
    elim (Result-cases (create t u).0) [
      | inr (e, bad) ↦ absurd (ground (arith, done, bad))
      | inl (a, good) ↦
          let same : v ≡ (create t u).1 = ground (arith, done, good) in
          let handed : pair.refresh_token ≡ raw = ground (arith, done, good) in
          (
            t,
            record {
              found = rw (handed, same) (create-stored t u quiet good);
              owner = refl;
              unused = new_token-unused lib s _ user_id family_id raw _;
            },
          )
    ]

issue-quiet :
    (lib : Library) (s : Settings) (user_id : ℕ) (w : World)
    → w.script ≡ []
    → (issue lib s.jwt user_id w).1.script ≡ []
unfolding issue
issue-quiet lib s user_id w quiet = ground (arith, quiet)

issue_token_pair-IsOpened :
    (lib : Library) (s : Settings) (user_id family_id : ℕ) (w v : World) (pair : TokenPair)
    → w.script ≡ []
    → issue_token_pair lib s user_id family_id w ≡ (ok pair, v)
    → (t : RefreshToken) × IsOpened user_id (lib.sha256_hex pair.refresh_token) v t
unfolding issue_token_pair generate_token
issue_token_pair-IsOpened lib s user_id family_id w v pair quiet done =
    elim (Result-cases (issue lib s.jwt user_id w).0) [
      | inr (e, bad) ↦ absurd (ground (arith, done, bad))
      | inl (access, signed) ↦
          elim (Option-cases (lib.random_text (issue lib s.jwt user_id w).1.drawn)) [
            | inl bad ↦ absurd (ground (arith, done, signed, bad))
            | inr (raw, drawn) ↦
                let at = (issue lib s.jwt user_id w).1 in
                let u = record at { drawn = at.drawn + 1 } in
                store_token-IsOpened lib s user_id family_id access raw u v pair
                  (issue-quiet lib s user_id w quiet) (ground (arith, done, signed, drawn))
          ]
    ]

Comparison-cases : (c : Comparison) → (c ≡ matches) ⊎ (c ≡ mismatched) ⊎ (c ≡ broken)
Comparison-cases matches = inl refl
Comparison-cases mismatched = inr (inl refl)
Comparison-cases broken = inr (inr refl)

login_broken :
    (pf : Platform) (lib : Library) (s : Settings) (email password : Text) (w v : World) (u : User)
    (pair : TokenPair)
    → w.script ≡ []
    → account pf email w ≡ some u
    → lib.compare password u.password_hash ≡ broken
    → ¬ (login pf lib s email password w ≡ (ok pair, v))
unfolding login Users.by_email call verify start_session
login_broken pf lib s email password w v u pair quiet known bad done = ground arith

login_matching :
    (pf : Platform) (lib : Library) (s : Settings) (email password : Text) (w : World) (u : User)
    → w.script ≡ []
    → account pf email w ≡ some u
    → lib.compare password u.password_hash ≡ matches
    → login pf lib s email password w
      ≡ issue_token_pair lib s u.id (w.ids w.drawn) (record w { script = []; drawn = w.drawn + 1 })
unfolding login Users.by_email call verify start_session
login_matching pf lib s email password w u quiet known good = ground arith

-- With no other session at work, a login that succeeds was with the e-mail of an account and the
-- password of that account, and the refresh token that it hands out is found by its hash in the
-- table afterwards, belongs to that account, and is neither rotated nor revoked.
pub login-IsOpened :
    (pf : Platform) (lib : Library) (s : Settings) (email password : Text) (w v : World)
    (pair : TokenPair)
    → w.script ≡ []
    → login pf lib s email password w ≡ (ok pair, v)
    → (u : User) × (t : RefreshToken) × (account pf email w ≡ some u)
      × (lib.compare password u.password_hash ≡ matches)
      × IsOpened u.id (lib.sha256_hex pair.refresh_token) v t
login-IsOpened pf lib s email password w v pair quiet done =
    elim (Option-cases (account pf email w)) [
      | inl nobody ↦
          let run = login_unknown pf lib s email password w quiet nobody in
          absurd (ground (arith, done, run))
      | inr (u, known) ↦ elim (Comparison-cases (lib.compare password u.password_hash)) [
        | inl good ↦
            let run = login_matching pf lib s email password w u quiet known good in
            let (t, opened) =
              issue_token_pair-IsOpened lib s u.id (w.ids w.drawn)
                (record w { script = []; drawn = w.drawn + 1 }) v pair refl (sym run ∙ done) in
            (u, t, known, good, opened)
        | inr (inl wrong) ↦
            let run = login_mismatched pf lib s email password w u quiet known wrong in
            absurd (ground (arith, done, run))
        | inr (inr bad) ↦
            absurd (login_broken pf lib s email password w v u pair quiet known bad done)
      ]
    ]
