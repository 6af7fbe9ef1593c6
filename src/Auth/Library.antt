-- ===== src/Auth/Library.antt =====
-- What the program takes from golang-jwt, bcrypt, crypto/sha256, crypto/rand and google/uuid. A
-- random choice is a function of the number of draws before it.
use go_finish_line_api.Prelude.{ℕ, String, Bool, Option, none, some}
use go_finish_line_api.Text.{Text}
use go_finish_line_api.Civil.{Time}
use go_finish_line_api.Apperr.{Result, ok, err, wrap, signal, failure}

-- `jwt.RegisteredClaims`, as far as the program sets and reads them.
pub record RegisteredClaims : Type 0 where
  pub subject : Text
  pub issued_at : Option Time
  pub expires_at : Option Time

-- What CompareHashAndPassword answers: nil, ErrMismatchedHashAndPassword or another error.
pub data Comparison : Type 0 where
  matches mismatched broken : Comparison

-- `none` is an error.
pub record Library : Type 0 where
  -- NewWithClaims with HS256 and SignedString
  pub sign : (secret : Text) → RegisteredClaims → Option Text
  -- The method in a token's header is of the HMAC family.
  pub is_hmac : Text → Bool
  -- ParseWithClaims, once the key is given
  pub verified : (secret : Text) → (now : Time) → Text → Option RegisteredClaims
  -- uuid.UUID.String and uuid.Parse
  pub print_uuid : ℕ → Text
  pub parse_uuid : Text → Option ℕ
  -- time.Time{}
  pub zero_time : Time
  -- hex of SHA-256
  pub sha256_hex : Text → Text
  -- base64 of 32 bytes of crypto/rand
  pub random_text : (draws : ℕ) → Option Text
  -- GenerateFromPassword, with its random salt
  pub bcrypt : (draws : ℕ) → Text → Option Text
  pub compare : (plain hash : Text) → Comparison

-- A library's error, with the context that the program adds.
abbrev pub or_fail : {A : Type 0} → String → Option A → Result A
or_fail context none = err (wrap context (signal failure))
or_fail context (some a) = ok a
