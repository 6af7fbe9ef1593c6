-- ===== src/Auth/Security.antt =====
-- internal/common/security/bcrypt.go: hashing and comparing passwords.
use go_finish_line_api.Prelude.{◌+◌, Bool, true, false}
use go_finish_line_api.Text.{Text}
use go_finish_line_api.Apperr.{Result, ok, err, wrap, signal, failure}
use go_finish_line_api.Auth.Library.{Library, Comparison, matches, mismatched, broken, or_fail}
use go_finish_line_api.Store.{Action}

-- `Hash`; the salt is one draw.
unfoldable pub hash_password : Library → Text → Action Text
hash_password lib plain w =
    (or_fail "hashing password" (lib.bcrypt w.drawn plain), record w { drawn = w.drawn + 1 })

abbrev read_comparison : Comparison → Result Bool
read_comparison matches = ok true
read_comparison mismatched = ok false
read_comparison broken = err (wrap "verifying password" (signal failure))

-- `Verify`: a mismatch is an outcome and no error.
unfoldable pub verify : Library → (plain hash : Text) → Result Bool
verify lib plain hash = read_comparison (lib.compare plain hash)
