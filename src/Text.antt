-- ===== src/Text.antt =====
-- Go's `string` as the list of its code points, and what the program uses of the standard
-- packages strings, unicode and utf8: TrimSpace, ToUpper, ToLower, the length in bytes.
-- A text that came through JSON is valid UTF-8, so nothing is lost by the code points.
pub mod Laws
pub mod Numeral
use Prim.Native.Char.{code}
use Prim.Native.String
use go_finish_line_api.Prelude.{
  ℕ, ◌+◌, ◌-◌, ◌≤◌, ◌≡◌, String, Bool, true, false, ◌&&◌, ◌||◌, List, [], ◌∷◌, map, ltb, leb, ◌==◌,
  if◌then◌else◌,
}

abbrev pub Text : Type 0
Text = List ℕ

-- The text of a literal.
abbrev pub codes : String → Text
codes String.[] = []
codes (String.◌∷◌ c s) = code c ∷ codes s

-- `s == t`
unfoldable pub text_eq : Text → Text → Bool
text_eq [] [] = true
text_eq [] (_ ∷ _) = false
text_eq (_ ∷ _) [] = false
text_eq (c ∷ s) (d ∷ t) = c == d && text_eq s t

abbrev pub is_empty : Text → Bool
is_empty [] = true
is_empty (_ ∷ _) = false

-- unicode.IsSpace: U+0009 to U+000D, space, U+0085, U+00A0, and White_Space beyond Latin-1.
unfoldable pub is_space : ℕ → Bool
is_space c =
    leb 9 c && leb c 13
    || c == 32
    || c == 0x85
    || c == 0xa0
    || c == 0x1680
    || leb 0x2000 c && leb c 0x200a
    || c == 0x2028
    || c == 0x2029
    || c == 0x202f
    || c == 0x205f
    || c == 0x3000

unfoldable pub trim_left : Text → Text
trim_left [] = []
trim_left (c ∷ s) = let rest = trim_left s in if is_space c then rest else c ∷ s

-- Without the trailing white space: a space goes if nothing is left behind it.
unfoldable pub trim_right : Text → Text
trim_right [] = []
trim_right (c ∷ s) = let rest = trim_right s in if is_space c && is_empty rest then [] else c ∷ rest

-- strings.TrimSpace
unfoldable pub trim_space : Text → Text
unfolding trim_left trim_right is_space
trim_space s = trim_right (trim_left s)

-- What the program takes from code that is not its own: the Unicode case tables beyond ASCII, and
-- the test of `net/mail.ParseAddress` for an error.
pub record Platform : Type 0 where
  pub upper_table : ℕ → ℕ
  pub lower_table : ℕ → ℕ
  pub is_address : Text → Bool

-- unicode.ToUpper and unicode.ToLower
unfoldable pub upper_rune : Platform → ℕ → ℕ
upper_rune pf c =
    if ltb c 128 then (if leb b'a' c && leb c b'z' then c - 32 else c) else pf.upper_table c

unfoldable pub lower_rune : Platform → ℕ → ℕ
lower_rune pf c =
    if ltb c 128 then (if leb b'A' c && leb c b'Z' then c + 32 else c) else pf.lower_table c

-- strings.ToUpper and strings.ToLower
unfoldable pub to_upper : Platform → Text → Text
unfolding upper_rune
to_upper pf s = map (upper_rune pf) s

unfoldable pub to_lower : Platform → Text → Text
unfolding lower_rune
to_lower pf s = map (lower_rune pf) s

-- Postgres compares citext by the lower case of both sides.
unfoldable pub citext_eq : Platform → Text → Text → Bool
citext_eq pf s t = text_eq (to_lower pf s) (to_lower pf t)

-- `len` counts bytes of UTF-8.
unfoldable pub rune_len : ℕ → ℕ
rune_len c = if ltb c 0x80 then 1 else if ltb c 0x800 then 2 else if ltb c 0x10000 then 3 else 4

unfoldable pub byte_len : Text → ℕ
unfolding rune_len
byte_len [] = 0
byte_len (c ∷ s) = rune_len c + byte_len s
