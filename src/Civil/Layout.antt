-- ===== src/Civil/Layout.antt =====
-- The layout "2006-01-02" of Go's package time, printed and parsed. A year of the calendar is
-- printed by its distance from `base_year`, the year 0.
pub mod RoundTrip
use go_finish_line_api.Prelude.{
  ℕ, ◌+◌, ◌-◌, ◌*◌, ◌/◌, ◌%◌, Bool, true, false, ◌&&◌, ◌||◌, Option, none, some, List, [], ◌∷◌,
  ◌++◌, ltb, leb, ◌==◌, if◌then◌else◌,
}
use go_finish_line_api.Text.{Text}
use go_finish_line_api.Text.Numeral.{is_numeral, digit, print_nat}
use go_finish_line_api.Civil.{Date, civil, days_in_month}

abbrev pub base_year : ℕ
base_year = 10000

-- A number of at least four digits, and of at least two.
unfoldable pub pad4 : ℕ → Text
unfolding print_nat
pad4 n =
    if ltb n 10000
    then digit (n / 1000) ∷ digit (n / 100) ∷ digit (n / 10) ∷ digit n ∷ []
    else print_nat n

unfoldable pub pad2 : ℕ → Text
unfolding print_nat
pad2 n = if ltb n 100 then digit (n / 10) ∷ digit n ∷ [] else print_nat n

abbrev print_year : ℕ → Text
print_year y = if leb base_year y then pad4 (y - base_year) else b'-' ∷ pad4 (base_year - y)

-- `t.Format("2006-01-02")`
unfoldable pub format_date : Date → Text
unfolding pad4 pad2
format_date d = print_year d.year ++ b'-' ∷ (pad2 d.month ++ b'-' ∷ pad2 d.day)

abbrev pub number4 : ℕ → ℕ → ℕ → ℕ → ℕ
number4 a b c d = ((a - b'0') * 10 + (b - b'0')) * 100 + ((c - b'0') * 10 + (d - b'0'))

abbrev pub number2 : ℕ → ℕ → ℕ
number2 a b = (a - b'0') * 10 + (b - b'0')

abbrev pub check_date : Date → Option Date
check_date d =
    if leb 1 d.month && leb d.month 12 && leb 1 d.day && leb d.day (days_in_month d.year d.month)
    then some d
    else none

-- `time.Parse("2006-01-02", s)`, of which the program tells no error apart.
unfoldable pub parse_date : Text → Option Date
unfolding days_in_month
parse_date (a ∷ b ∷ c ∷ d ∷ p ∷ e ∷ f ∷ q ∷ g ∷ h ∷ []) =
    if is_numeral a
      && is_numeral b
      && is_numeral c
      && is_numeral d
      && p == b'-'
      && is_numeral e
      && is_numeral f
      && q == b'-'
      && is_numeral g
      && is_numeral h
    then check_date (civil (base_year + number4 a b c d) (number2 e f) (number2 g h))
    else none
parse_date _ = none
