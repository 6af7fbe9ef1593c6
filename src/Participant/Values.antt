-- ===== src/Participant/Values.antt =====
-- internal/participant/domain: the value objects gender.go, shirtsize.go, email.go, phone.go,
-- documentid.go, birthdate.go and status.go. The two regular expressions are recognisers.
pub mod Choices
pub mod Patterns
use go_finish_line_api.Prelude.{
  ℕ, suc, ◌+◌, String, Bool, true, false, not, ◌&&◌, ◌||◌, List, [], ◌∷◌, leb, ◌==◌, length,
  if◌then◌else◌,
}
use go_finish_line_api.Text.{
  Text, codes, text_eq, is_empty, trim_space, Platform, to_upper, to_lower,
}
use go_finish_line_api.Civil.{Time, on_date, sub_years, after, before}
use go_finish_line_api.Apperr.{
  ParticipantError, email_invalid, phone_invalid, document_id_invalid, birth_date_in_future,
  birth_date_unrealistic, gender_invalid, shirt_size_invalid, AppError, Err, app, Result, ok, err,
}

abbrev pub fail {ℓ} : {A : Type ℓ} → ParticipantError → Result A
fail e = err (app (AppError.participant e))

-- status.go; the text is what the column `estado` holds.
pub data Status : Type 0 where
  pending confirmed : Status

abbrev pub status_text : Status → Text
status_text pending = codes "pendiente"
status_text confirmed = codes "confirmado"

abbrev pub is_confirmed : Status → Bool
is_confirmed pending = false
is_confirmed confirmed = true

pub data Gender : Type 0 where
  male female other : Gender

abbrev pub gender_text : Gender → Text
gender_text male = codes "M"
gender_text female = codes "F"
gender_text other = codes "X"

abbrev gender_of : Text → Result Gender
gender_of g =
    if text_eq g (codes "M")
    then ok male
    else if text_eq g (codes "F")
    then ok female
    else if text_eq g (codes "X")
    then ok other
    else fail gender_invalid

unfoldable pub parse_gender : Platform → Text → Result Gender
parse_gender pf raw = gender_of (to_upper pf (trim_space raw))

-- `unsized` is the empty size, of a modalidad without a shirt.
pub data ShirtSize : Type 0 where
  unsized xs s m l xl xxl : ShirtSize

abbrev pub shirt_size_text : ShirtSize → Text
shirt_size_text unsized = []
shirt_size_text xs = codes "XS"
shirt_size_text s = codes "S"
shirt_size_text m = codes "M"
shirt_size_text l = codes "L"
shirt_size_text xl = codes "XL"
shirt_size_text xxl = codes "XXL"

abbrev shirt_size_of : Text → Result ShirtSize
shirt_size_of t =
    if is_empty t
    then ok unsized
    else if text_eq t (codes "XS")
    then ok xs
    else if text_eq t (codes "S")
    then ok s
    else if text_eq t (codes "M")
    then ok m
    else if text_eq t (codes "L")
    then ok l
    else if text_eq t (codes "XL")
    then ok xl
    else if text_eq t (codes "XXL")
    then ok xxl
    else fail shirt_size_invalid

unfoldable pub parse_shirt_size : Platform → Text → Result ShirtSize
parse_shirt_size pf raw = shirt_size_of (to_upper pf (trim_space raw))

unfoldable pub normalize_email : Platform → Text → Result Text
normalize_email pf email =
    let cleaned = to_lower pf (trim_space email) in
    if pf.is_address cleaned then ok cleaned else fail email_invalid

unfoldable pub is_digit : ℕ → Bool
is_digit c = leb b'0' c && leb c b'9'

unfoldable pub is_alphanumeric : ℕ → Bool
unfolding is_digit
is_alphanumeric c = is_digit c || (leb b'A' c && leb c b'Z') || (leb b'a' c && leb c b'z')

unfoldable pub every : (ℕ → Bool) → Text → Bool
every p [] = true
every p (c ∷ t) = p c && every p t

-- `[0-9]{lo,hi}$` and the like: all of the text, between two lengths.
unfoldable pub repeats : (ℕ → Bool) → ℕ → ℕ → Text → Bool
unfolding every
repeats p lo hi t = every p t && leb lo (length t) && leb (length t) hi

-- `^\+?[0-9]{7,15}$`
unfoldable pub matches_phone : Text → Bool
unfolding repeats is_digit
matches_phone [] = false
matches_phone (c ∷ t) = if c == b'+' then repeats is_digit 7 15 t else repeats is_digit 7 15 (c ∷ t)

unfoldable pub is_separator : ℕ → Bool
is_separator c = c == b' ' || c == b'-' || c == b'(' || c == b')'

-- the strings.Replacer of `NormalizePhone`
unfoldable pub strip_separators : Text → Text
unfolding is_separator
strip_separators [] = []
strip_separators (c ∷ t) =
    let rest = strip_separators t in if is_separator c then rest else c ∷ rest

unfoldable pub normalize_phone : Text → Result Text
normalize_phone phone =
    let cleaned = strip_separators (trim_space phone) in
    if matches_phone cleaned then ok cleaned else fail phone_invalid

-- `(-[0-9A-Za-z]{1,3})?$`
unfoldable pub matches_complement : Text → Bool
unfolding repeats is_alphanumeric
matches_complement [] = true
matches_complement (c ∷ t) = c == b'-' && repeats is_alphanumeric 1 3 t

-- `[0-9]{5,10}` up to the first other character, which no complement begins with a digit.
unfoldable pub matches_digits_then : ℕ → Text → Bool
unfolding matches_complement is_digit
matches_digits_then n [] = leb 5 n && leb n 10
matches_digits_then n (c ∷ t) =
    let more = matches_digits_then (suc n) t in
    if is_digit c then more else leb 5 n && leb n 10 && matches_complement (c ∷ t)

-- `^[0-9]{5,10}(-[0-9A-Za-z]{1,3})?$`
unfoldable pub matches_document_id : Text → Bool
unfolding matches_digits_then
matches_document_id t = matches_digits_then 0 t

unfoldable pub normalize_document_id : Text → Result Text
normalize_document_id document_id =
    let cleaned = trim_space document_id in
    if matches_document_id cleaned then ok cleaned else fail document_id_invalid

unfoldable pub validate_birth_date : Time → Time → Result (Unit {0})
unfolding after before
validate_birth_date birth now =
    if after birth now
    then fail birth_date_in_future
    else if before birth (on_date (sub_years 120) now)
    then fail birth_date_unrealistic
    else ok tt
