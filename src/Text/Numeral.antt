-- ===== src/Text/Numeral.antt =====
-- What the program uses of Go's strconv and of fmt's verbs for integers: strconv.Atoi with the
-- value that it returns beside an error, `%d`, and digits padded with zeros.
pub mod Laws
use go_finish_line_api.Prelude.{
  ℕ, zero, suc, ◌+◌, ◌-◌, ◌*◌, ◌/◌, ◌%◌, ◌^◌, Bool, true, false, not, ◌&&◌, ◌||◌, List, [], ◌∷◌,
  ltb, leb, ◌==◌, ℤ, pos, negsuc, if◌then◌else◌,
}
use go_finish_line_api.Text.{Text}

abbrev pub is_numeral : ℕ → Bool
is_numeral c = leb b'0' c && leb c b'9'

abbrev pub digit : ℕ → ℕ
digit n = b'0' + n % 10

-- The digits of `n` in front of a text, with as much fuel as suffices.
unfoldable pub digits_onto : (fuel n : ℕ) → Text → Text
digits_onto zero n t = t
digits_onto (suc fuel) n t =
    let more = digits_onto fuel (n / 10) (digit n ∷ t) in if ltb n 10 then digit n ∷ t else more

unfoldable pub print_nat : ℕ → Text
unfolding digits_onto
print_nat n = digits_onto (suc n) n []

-- `%d`
unfoldable pub print_int : ℤ → Text
unfolding print_nat
print_int (pos n) = print_nat n
print_int (negsuc n) = b'-' ∷ print_nat (suc n)

-- What strconv.ParseUint finds, from the left: it stops at the first digit that leaves 64 bits.
pub data Scan : Type 0 where
  value : ℕ → Scan
  out_of_range bad_syntax : Scan

unfoldable pub scan_digits : ℕ → Text → Scan
scan_digits n [] = value n
scan_digits n (c ∷ t) =
    let more = scan_digits (n * 10 + (c - b'0')) t in
    if not (is_numeral c)
    then bad_syntax
    else if leb (2 ^ 64) (n * 10 + (c - b'0'))
    then out_of_range
    else more

unfoldable pub scan : Text → Scan
unfolding scan_digits
scan [] = bad_syntax
scan (c ∷ t) = scan_digits 0 (c ∷ t)

-- What Atoi returns: the value, and whether the error is nil.
pub record Read : Type 0 where
  pub result : ℤ
  pub fine : Bool

abbrev pub read : ℤ → Bool → Read
read z fine = record { result = z; fine = fine }

abbrev positive : Scan → Read
positive (value n) = if leb (2 ^ 63) n then read (pos (2 ^ 63 - 1)) false else read (pos n) true
positive out_of_range = read (pos (2 ^ 63 - 1)) false
positive bad_syntax = read (pos 0) false

abbrev minus : ℕ → ℤ
minus zero = pos 0
minus (suc n) = negsuc n

abbrev negative : Scan → Read
negative (value n) =
    if ltb (2 ^ 63) n then read (negsuc (2 ^ 63 - 1)) false else read (minus n) true
negative out_of_range = read (negsuc (2 ^ 63 - 1)) false
negative bad_syntax = read (pos 0) false

-- strconv.Atoi: an error of range comes with the nearest value, one of syntax with 0.
unfoldable pub atoi : Text → Read
unfolding scan
atoi [] = read (pos 0) false
atoi (c ∷ t) =
    if c == b'-'
    then negative (scan t)
    else if c == b'+'
    then positive (scan t)
    else positive (scan (c ∷ t))
