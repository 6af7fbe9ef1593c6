-- ===== src/Auth/Service/Race.antt =====
-- Two exchanges of one refresh token at the same time: the row is read before it is marked, and it
-- is marked by its id alone.
use go_finish_line_api.Prelude.{◌+◌, ◌≡◌, sym, ◌∙◌, false, some, [], ◌∷◌, arith}
use go_finish_line_api.Text.{Text}
use go_finish_line_api.Apperr.{ok}
use go_finish_line_api.Auth.Token.{RefreshToken, is_used, is_expired}
use go_finish_line_api.Auth.Library.{Library}
use go_finish_line_api.Auth.Repository.{by_token_hash, mark_rotated, rotate_sql}
use go_finish_line_api.Auth.Service.{
  Settings, TokenPair, refresh, exchange, rotate, issue_token_pair,
}
use go_finish_line_api.Auth.Service.Rotation.{stored, exchange_rotates}
use go_finish_line_api.Auth.Service.Reuse.{refresh_known}
use go_finish_line_api.Store.{Db, World, call}

-- A session that reads the token now, and whose next statement comes when the tables are `later`.
abbrev pub overtaken : World → Db → World
overtaken w later = record w {
  script =
      record { others = λ db. db; fails = false }
      ∷ record { others = λ db. later; fails = false }
      ∷ [];
}

-- Its world when it has marked the token.
abbrev pub marked : World → Db → RefreshToken → World
marked w later rt = record w {
  db = (rotate_sql rt.id (w.clock (w.ticks + 1)) later).1;
  ticks = w.ticks + 2;
  script = [];
}

overtaken_exchange :
    (lib : Library) (s : Settings) (raw : Text) (w : World) (later : Db) (rt : RefreshToken)
    → stored (lib.sha256_hex raw) w ≡ some rt
    → is_used rt ≡ false
    → is_expired rt (w.clock w.ticks) ≡ false
    → refresh lib s raw (overtaken w later)
      ≡ issue_token_pair lib s rt.user_id rt.family_id (marked w later rt)
unfolding refresh by_token_hash call exchange rotate mark_rotated rotate_sql
overtaken_exchange lib s raw w later rt e fresh valid = ground arith

-- If one session has exchanged a refresh token for a pair, and another one had read the token before
-- and finds it not expired when it goes on, the other one's outcome is that of issuing a pair of the
-- same family, on the tables as the first one left them and with the token marked again, as if
-- nobody had used it.
pub refresh-overtaken :
    (lib : Library) (s : Settings) (raw : Text) (w w' : World) (rt : RefreshToken)
    (pair : TokenPair)
    → w.script ≡ []
    → stored (lib.sha256_hex raw) w ≡ some rt
    → refresh lib s raw w ≡ (ok pair, w')
    → is_expired rt (w'.clock w'.ticks) ≡ false
    → refresh lib s raw (overtaken (record w' { db = w.db }) w'.db)
      ≡ issue_token_pair lib s rt.user_id rt.family_id (marked (record w' { db = w.db }) w'.db rt)
refresh-overtaken lib s raw w w' rt pair h e done valid =
    let exchanged = sym (refresh_known lib s raw w rt h e) ∙ done in
    let (fresh, _) = exchange_rotates lib s rt w w' pair h exchanged in
    overtaken_exchange lib s raw (record w' { db = w.db }) w'.db rt e fresh valid
