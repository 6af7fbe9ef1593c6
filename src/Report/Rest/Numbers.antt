-- ===== src/Report/Rest/Numbers.antt =====
-- Whole numbers in the query of a request.
use go_finish_line_api.Prelude.{
  ◌≡◌, refl, sym, subst, arith, ◌-◌, ◌^◌, true, false, some, [], ◌∷◌, ℤ, pos, negsuc, ◌≤ℤ◌,
}
use go_finish_line_api.Text.{Text, is_empty}
use go_finish_line_api.Text.Numeral.{print_int, atoi, read}
use go_finish_line_api.Text.Numeral.Laws.{atoi-print_int}
use go_finish_line_api.Httpx.Request.{Request, query_text}
use go_finish_line_api.Report.Rest.{optional_int, lenient_int}

filled : (t : Text) (z : ℤ) → atoi t ≡ read z true → is_empty t ≡ false
unfolding atoi
filled [] z h = absurd (ground (arith, h))
filled (c ∷ t) z h = refl

-- The decimal form of an int of 64 bits is read as that int, by the handlers that refuse what is no
-- number and by those that do not.
pub optional_int-print_int :
    (r : Request) (key : Text) (z : ℤ)
    → negsuc (2 ^ 63 - 1) ≤ℤ z
    → z ≤ℤ pos (2 ^ 63 - 1)
    → query_text r key ≡ print_int z
    → (optional_int r key ≡ some (some z)) × (lenient_int r key ≡ z)
unfolding optional_int lenient_int
optional_int-print_int r key z low high sent =
    let parsed = subst (λ t. atoi t ≡ read z true) (sym sent) (atoi-print_int z low high) in
    (rw (filled (query_text r key) z parsed) (rw parsed refl), rw (parsed, lenient_int) refl)
