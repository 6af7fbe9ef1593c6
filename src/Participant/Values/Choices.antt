-- ===== src/Participant/Values/Choices.antt =====
-- Genders and shirt sizes: what the parsers accept.
use go_finish_line_api.Prelude.{◌≡◌, refl, ◌↔◌, [], ◌∷◌, arith}
use go_finish_line_api.Text.{Text, codes, text_eq, trim_space, Platform, to_upper}
use go_finish_line_api.Text.Laws.{text_eq_iff}
use go_finish_line_api.Apperr.{ok}
use go_finish_line_api.Participant.Values.{
  Gender, gender_of, shirt_size_of, male, female, other, gender_text, parse_gender, ShirtSize,
  unsized, xs, s, m, l, xl, xxl, shirt_size_text, parse_shirt_size,
}

gender_of_sound : (t : Text) (g : Gender) → gender_of t ≡ ok g → t ≡ gender_text g
gender_of_sound t g h =
    ground (arith, text_eq_iff t (codes "M"), text_eq_iff t (codes "F"), text_eq_iff t (codes "X"))

gender_of-gender_text : (g : Gender) → gender_of (gender_text g) ≡ ok g
unfolding text_eq
gender_of-gender_text male = refl
gender_of-gender_text female = refl
gender_of-gender_text other = refl

-- A gender is accepted exactly when the trimmed upper-case input is its letter.
pub parse_gender_iff :
    (pf : Platform) (raw : Text) (g : Gender)
    → (parse_gender pf raw ≡ ok g) ↔ (to_upper pf (trim_space raw) ≡ gender_text g)
unfolding parse_gender
parse_gender_iff pf raw g = (gender_of_sound _ g, λ e. rw e (gender_of-gender_text g))

shirt_size_of_sound : (t : Text) (z : ShirtSize) → shirt_size_of t ≡ ok z → t ≡ shirt_size_text z
shirt_size_of_sound [] z h = ground arith
shirt_size_of_sound (c ∷ t) z h = ground (
  arith,
  text_eq_iff (c ∷ t) (codes "XS"),
  text_eq_iff (c ∷ t) (codes "S"),
  text_eq_iff (c ∷ t) (codes "M"),
  text_eq_iff (c ∷ t) (codes "L"),
  text_eq_iff (c ∷ t) (codes "XL"),
  text_eq_iff (c ∷ t) (codes "XXL"),
)

shirt_size_of-shirt_size_text : (z : ShirtSize) → shirt_size_of (shirt_size_text z) ≡ ok z
unfolding text_eq
shirt_size_of-shirt_size_text unsized = refl
shirt_size_of-shirt_size_text xs = refl
shirt_size_of-shirt_size_text s = refl
shirt_size_of-shirt_size_text m = refl
shirt_size_of-shirt_size_text l = refl
shirt_size_of-shirt_size_text xl = refl
shirt_size_of-shirt_size_text xxl = refl

-- A size is accepted exactly when the trimmed upper-case input is on the chart, or is empty.
pub parse_shirt_size_iff :
    (pf : Platform) (raw : Text) (z : ShirtSize)
    → (parse_shirt_size pf raw ≡ ok z) ↔ (to_upper pf (trim_space raw) ≡ shirt_size_text z)
unfolding parse_shirt_size
parse_shirt_size_iff pf raw z =
    (shirt_size_of_sound _ z, λ e. rw e (shirt_size_of-shirt_size_text z))
