-- ===== src/Text/Numeral/Laws.antt =====
-- Reading a numeral: the range of what is read, and that it undoes printing.
use go_finish_line_api.Prelude.{
  ℕ, zero, suc, ◌+◌, ◌-◌, ◌*◌, ◌/◌, ◌%◌, ◌^◌, ◌<◌, ◌≡◌, refl, ◌∙◌, subst, true, false, [], ◌∷◌, ltb,
  leb, ℤ, pos, negsuc, ◌≤ℤ◌, arith, Bool-cases, inl, inr,
}
use go_finish_line_api.Text.{Text}
use go_finish_line_api.Text.Numeral.{
  is_numeral, digit, digits_onto, print_nat, print_int, value, scan_digits, scan, read, atoi,
}

numeral-digit : (n : ℕ) → is_numeral (digit n) ≡ true
numeral-digit n = ground arith

scan_digits-digit :
    (m n k : ℕ) (t : Text)
    → k < 2 ^ 64
    → m * 10 + n % 10 ≡ k
    → scan_digits m (digit n ∷ t) ≡ scan_digits k t
unfolding scan_digits
scan_digits-digit m n k t small e =
    let same : m * 10 + (digit n - b'0') ≡ k = omega arith in
    let fits : leb (2 ^ 64) (m * 10 + (digit n - b'0')) ≡ false = ground arith in
    rw (numeral-digit n, fits, same) refl

scan_digits-onto :
    (fuel n : ℕ) (t : Text)
    → n < fuel
    → n < 2 ^ 64
    → scan_digits 0 (digits_onto fuel n t) ≡ scan_digits n t
unfolding digits_onto
scan_digits-onto zero n t h k = absurd (omega arith)
scan_digits-onto (suc fuel) n t h k = elim (Bool-cases (ltb n 10)) [
  | inl last ↦ rw last (scan_digits-digit 0 n n t k (ground arith))
  | inr more ↦ rw more (
      scan_digits-onto fuel (n / 10) (digit n ∷ t) (ground arith) (omega arith)
      ∙ scan_digits-digit (n / 10) n n t k (omega arith))
]

-- What is printed begins with a digit.
digits_onto-head :
    (fuel n : ℕ) (t : Text)
    → n < fuel
    → (k : ℕ) × (t' : Text) × (digits_onto fuel n t ≡ digit k ∷ t')
unfolding digits_onto
digits_onto-head zero n t h = absurd (omega arith)
digits_onto-head (suc fuel) n t h = elim (Bool-cases (ltb n 10)) [
  | inl last ↦ (n, t, rw last refl)
  | inr more ↦ rw more (digits_onto-head fuel (n / 10) (digit n ∷ t) (ground arith))
]

print_nat-head : (n : ℕ) → (k : ℕ) × (t : Text) × (print_nat n ≡ digit k ∷ t)
unfolding print_nat
print_nat-head n = digits_onto-head (suc n) n [] (omega arith)

scan_digits-nil : (n : ℕ) → scan_digits n [] ≡ value n
unfolding scan_digits
scan_digits-nil n = refl

scan-print_nat : (n : ℕ) → n < 2 ^ 64 → scan (print_nat n) ≡ value n
unfolding scan print_nat
scan-print_nat n h =
    let (k, t, e) = digits_onto-head (suc n) n [] (omega arith) in
    let read = scan_digits-onto (suc n) n [] (omega arith) h in
    rw e (subst (λ s. scan_digits 0 s ≡ value n) e (read ∙ scan_digits-nil n))

atoi-digit :
    (k : ℕ) (t : Text) (n : ℕ)
    → scan (digit k ∷ t) ≡ value n
    → n < 2 ^ 63
    → atoi (digit k ∷ t) ≡ read (pos n) true
unfolding atoi
atoi-digit k t n e h = ground arith

atoi-minus :
    (t : Text) (n : ℕ)
    → scan t ≡ value (suc n)
    → n < 2 ^ 63
    → atoi (b'-' ∷ t) ≡ read (negsuc n) true
unfolding atoi
atoi-minus t n e h = ground arith

-- A value of Go's int is read back, without an error, from what `%d` prints of it.
pub atoi-print_int :
    (z : ℤ) → negsuc (2 ^ 63 - 1) ≤ℤ z → z ≤ℤ pos (2 ^ 63 - 1) → atoi (print_int z) ≡ read z true
unfolding print_int
atoi-print_int (pos n) low high =
    let (k, t, e) = print_nat-head n in
    let scanned = subst (λ s. scan s ≡ value n) e (scan-print_nat n (omega arith)) in
    rw e (atoi-digit k t n scanned (omega arith))
atoi-print_int (negsuc n) low high =
    atoi-minus (print_nat (suc n)) n (scan-print_nat (suc n) (omega arith)) (omega arith)
