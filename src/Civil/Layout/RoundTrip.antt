-- ===== src/Civil/Layout/RoundTrip.antt =====
-- Dates as the API writes and reads them.
use go_finish_line_api.Prelude.{
  ℕ, ◌+◌, ◌-◌, ◌/◌, ◌≤◌, ◌<◌, ◌≡◌, refl, ap, ◌∙◌, subst, Bool, true, ◌&&◌, ◌==◌, ◌↔◌, Bool-cases,
  inl, inr, some, [], ◌∷◌, arith,
}
use go_finish_line_api.Text.{Text}
use go_finish_line_api.Text.Numeral.{is_numeral, digit}
use go_finish_line_api.Civil.{Date, IsDate, civil}
use go_finish_line_api.Civil.Laws.{days_in_month_bounds}
use go_finish_line_api.Civil.Layout.{
  base_year, pad4, pad2, number4, number2, check_date, format_date, parse_date,
}

numeral-digit : (n : ℕ) → is_numeral (digit n) ≡ true
numeral-digit n = ground arith

abbrev spelled : (y m d : ℕ) → Text
spelled y m d =
    digit (y / 1000)
    ∷ digit (y / 100)
    ∷ digit (y / 10)
    ∷ digit y
    ∷ b'-'
    ∷ digit (m / 10)
    ∷ digit m
    ∷ b'-'
    ∷ digit (d / 10)
    ∷ digit d
    ∷ []

format_date-spelled :
    (y m d : ℕ)
    → y < 10000
    → m < 100
    → d < 100
    → format_date (civil (base_year + y) m d) ≡ spelled y m d
unfolding format_date pad4 pad2
format_date-spelled y m d hy hm hd = ground arith

number2-digit : (n : ℕ) → n < 100 → number2 (digit (n / 10)) (digit n) ≡ n
number2-digit n h = omega arith

number4-digit :
    (n : ℕ)
    → n < 10000
    → number4 (digit (n / 1000)) (digit (n / 100)) (digit (n / 10)) (digit n) ≡ n
number4-digit n h = omega arith

parse_date-spelled :
    (y m d : ℕ)
    → y < 10000
    → m < 100
    → d < 100
    → parse_date (spelled y m d) ≡ check_date (civil (base_year + y) m d)
unfolding parse_date
parse_date-spelled y m d hy hm hd =
    rw
      (
        numeral-digit (y / 1000),
        numeral-digit (y / 100),
        numeral-digit (y / 10),
        numeral-digit y,
        numeral-digit (m / 10),
        numeral-digit m,
        numeral-digit (d / 10),
        numeral-digit d,
        number4-digit y hy,
        number2-digit m hm,
        number2-digit d hd,
      )
      refl

format-parse :
    (d : Date)
    → IsDate d
    → base_year ≤ d.year
    → d.year < base_year + 10000
    → parse_date (format_date d) ≡ some d
format-parse d v low high =
    let long = days_in_month_bounds d.year d.month in
    let y = d.year - base_year in
    let whole : base_year + y ≡ d.year = omega arith in
    let there = format_date-spelled y d.month d.day (omega arith) (omega arith) (omega arith) in
    let back = parse_date-spelled y d.month d.day (omega arith) (omega arith) (omega arith) in
    subst (λ n. parse_date (format_date (civil n d.month d.day)) ≡ some (civil n d.month d.day))
      whole (ap parse_date there ∙ back ∙ ground arith)

-- A text of ten characters that parses is spelled by its date.
digits-spelled :
    (a b : ℕ)
    → is_numeral a ≡ true
    → is_numeral b ≡ true
    → (digit (number2 a b / 10) ≡ a) × (digit (number2 a b) ≡ b) × (number2 a b < 100)
digits-spelled a b ha hb = ground arith

year-spelled :
    (a b c d : ℕ)
    → is_numeral a ≡ true
    → is_numeral b ≡ true
    → is_numeral c ≡ true
    → is_numeral d ≡ true
    → (digit (number4 a b c d / 1000) ≡ a)
      × (digit (number4 a b c d / 100) ≡ b)
      × (digit (number4 a b c d / 10) ≡ c)
      × (digit (number4 a b c d) ≡ d)
      × (number4 a b c d < 10000)
year-spelled a b c d ha hb hc hd = ground arith

check_date-IsDate : (d e : Date) → check_date d ≡ some e → IsDate e × (d ≡ e)
check_date-IsDate d e h = ground arith

abbrev marks : (a b c d p e f q g h : ℕ) → Bool
marks a b c d p e f q g h =
    is_numeral a
    && is_numeral b
    && is_numeral c
    && is_numeral d
    && p == b'-'
    && is_numeral e
    && is_numeral f
    && q == b'-'
    && is_numeral g
    && is_numeral h

parse_ten :
    (a b c d p e f q g h : ℕ) (day : Date)
    → parse_date (a ∷ b ∷ c ∷ d ∷ p ∷ e ∷ f ∷ q ∷ g ∷ h ∷ []) ≡ some day
    → (marks a b c d p e f q g h ≡ true)
      × (check_date (civil (base_year + number4 a b c d) (number2 e f) (number2 g h)) ≡ some day)
unfolding parse_date
parse_ten a b c d p e f q g h day k = elim (Bool-cases (marks a b c d p e f q g h)) [
  | inl good ↦ (good, rw good at k)
  | inr bad ↦ cc (rw bad at k)
]

spelled_ten :
    (a b c d p e f q g h : ℕ)
    → marks a b c d p e f q g h ≡ true
    → format_date (civil (base_year + number4 a b c d) (number2 e f) (number2 g h))
      ≡ a ∷ b ∷ c ∷ d ∷ p ∷ e ∷ f ∷ q ∷ g ∷ h ∷ []
spelled_ten a b c d p e f q g h good =
    let ys = year-spelled a b c d (ground arith) (ground arith) (ground arith) (ground arith) in
    let ms = digits-spelled e f (ground arith) (ground arith) in
    let ds = digits-spelled g h (ground arith) (ground arith) in
    let first : p ≡ b'-' = ground arith in
    let second : q ≡ b'-' = ground arith in
    format_date-spelled (number4 a b c d) (number2 e f) (number2 g h) ys.4 ms.2 ds.2
    ∙ rw (ys.0, ys.1, ys.2, ys.3, ms.0, ms.1, ds.0, ds.1, first, second) refl

parse_sound :
    (t : Text) (d : Date)
    → parse_date t ≡ some d
    → IsDate d × (base_year ≤ d.year) × (d.year < base_year + 10000) × (format_date d ≡ t)
unfolding parse_date
parse_sound (a ∷ b ∷ c ∷ d ∷ p ∷ e ∷ f ∷ q ∷ g ∷ h ∷ []) day k =
    let (good, checked) = parse_ten a b c d p e f q g h day k in
    let raw = civil (base_year + number4 a b c d) (number2 e f) (number2 g h) in
    let (valid, same) = check_date-IsDate raw day checked in
    let (_, _, _, _, small) =
      year-spelled a b c d (ground arith) (ground arith) (ground arith) (ground arith) in
    let spelled = spelled_ten a b c d p e f q g h good in
    (
      valid,
      subst (λ (x : Date). base_year ≤ x.year) same (omega arith),
      subst (λ (x : Date). x.year < base_year + 10000) same (omega (arith, small)),
      subst (λ x. format_date x ≡ a ∷ b ∷ c ∷ d ∷ p ∷ e ∷ f ∷ q ∷ g ∷ h ∷ []) same spelled,
    )
parse_sound _ day k = ground arith

-- A text is read as a date exactly when it is what is written of that date, for a date of the
-- calendar in the years 0 to 9999.
pub parse_date_iff :
    (t : Text) (d : Date)
    → (parse_date t ≡ some d)
      ↔ (IsDate d × (base_year ≤ d.year) × (d.year < base_year + 10000) × (format_date d ≡ t))
parse_date_iff t d =
    (parse_sound t d, λ h. subst (λ s. parse_date s ≡ some d) h.3 (format-parse d h.0 h.1 h.2))
