-- ===== src/Auth/Jwt.antt =====
-- internal/auth/adapters/jwt/jwt.go: access tokens.
use go_finish_line_api.Prelude.{ℕ, Option, none, some, if◌then◌else◌}
use go_finish_line_api.Text.{Text}
use go_finish_line_api.Civil.{Time, add}
use go_finish_line_api.Apperr.{Result, ok, err, signal, failure, wrap}
use go_finish_line_api.Auth.Token.{Claims}
use go_finish_line_api.Auth.Library.{Library, RegisteredClaims, or_fail}
use go_finish_line_api.Store.{Action, ◌>>=◌, pure, lift, time_now}

pub record Jwt : Type 0 where
  pub secret : Text
  pub ttl : ℕ

unfoldable pub issue : Library → Jwt → (user_id : ℕ) → Action (Text × Time)
unfolding add
issue lib s user_id = do
  now ← time_now
  let expires_at = add now s.ttl
  signed ← lift (
      or_fail "signing token" (
        lib.sign s.secret (record {
          subject = lib.print_uuid user_id;
          issued_at = some now;
          expires_at = some expires_at;
        })))
  pure (signed, expires_at)

abbrev or_zero : Library → Option Time → Time
or_zero lib none = lib.zero_time
or_zero lib (some t) = t

abbrev claims_for : Library → RegisteredClaims → (user_id : ℕ) → Claims
claims_for lib c user_id = record {
  user_id = user_id;
  issued_at = or_zero lib c.issued_at;
  expires_at = or_zero lib c.expires_at;
}

abbrev read_subject : Library → RegisteredClaims → Option ℕ → Result Claims
read_subject lib c none = err (wrap "invalid subject" (signal failure))
read_subject lib c (some user_id) = ok (claims_for lib c user_id)

abbrev read_claims : Library → Option RegisteredClaims → Result Claims
read_claims lib none = err (wrap "parsing token" (signal failure))
read_claims lib (some c) = read_subject lib c (lib.parse_uuid c.subject)

-- A method that is not HMAC gets no key.
unfoldable pub parse : Library → Jwt → (now : Time) → Text → Result Claims
parse lib s now raw =
    if lib.is_hmac raw
    then read_claims lib (lib.verified s.secret now raw)
    else err (wrap "parsing token" (signal failure))
