-- ===== src/Text/Laws.antt =====
-- Laws of the text functions.
use go_finish_line_api.Prelude.{
  ℕ, ◌≡◌, refl, ◌↔◌, true, false, ◌&&◌, [], ◌∷◌, inl, inr, arith, Bool-cases,
}
use go_finish_line_api.Text.{Text, text_eq, is_empty, is_space, trim_left, trim_right, trim_space}

pub text_eq_refl : (s : Text) → text_eq s s ≡ true
unfolding text_eq
text_eq_refl [] = refl
text_eq_refl (c ∷ s) = ground (arith, text_eq_refl s)

pub text_eq→eq : (s t : Text) → text_eq s t ≡ true → s ≡ t
unfolding text_eq
text_eq→eq [] [] h = refl
text_eq→eq [] (d ∷ t) h = cc
text_eq→eq (c ∷ s) [] h = cc
text_eq→eq (c ∷ s) (d ∷ t) h = ground (arith, text_eq→eq s t)

pub text_eq_iff : (s t : Text) → (text_eq s t ≡ true) ↔ (s ≡ t)
text_eq_iff s t = (text_eq→eq s t, λ e. rw e (text_eq_refl t))

pub text_eq_comm : (s t : Text) → text_eq s t ≡ text_eq t s
unfolding text_eq
text_eq_comm [] [] = refl
text_eq_comm [] (d ∷ t) = refl
text_eq_comm (c ∷ s) [] = refl
text_eq_comm (c ∷ s) (d ∷ t) = ground (arith, text_eq_comm s t)

-- A text begins with no white space, and ends with none.
abbrev pub StartsClean : Text → Type 0
StartsClean [] = Unit {0}
StartsClean (c ∷ s) = is_space c ≡ false

abbrev pub EndsClean : Text → Type 0
EndsClean [] = Unit {0}
EndsClean (c ∷ []) = is_space c ≡ false
EndsClean (c ∷ d ∷ s) = EndsClean (d ∷ s)

abbrev pub IsTrimmed : Text → Type 0
IsTrimmed s = StartsClean s × EndsClean s

trim_left-StartsClean : (s : Text) → StartsClean (trim_left s)
unfolding trim_left
trim_left-StartsClean [] = tt
trim_left-StartsClean (c ∷ s) = ground (arith, trim_left-StartsClean s)

EndsClean-cons :
    (c : ℕ) (t : Text) → EndsClean t → (is_space c && is_empty t) ≡ false → EndsClean (c ∷ t)
EndsClean-cons c [] h k = ground arith
EndsClean-cons c (d ∷ t) h k = h

trim_right-EndsClean : (s : Text) → EndsClean (trim_right s)
unfolding trim_right
trim_right-EndsClean [] = tt
trim_right-EndsClean (c ∷ s) = elim (Bool-cases (is_space c && is_empty (trim_right s))) [
  | inl gone ↦ rw gone tt
  | inr kept ↦ rw kept (EndsClean-cons c (trim_right s) (trim_right-EndsClean s) kept)
]

trim_right-StartsClean : (s : Text) → StartsClean s → StartsClean (trim_right s)
unfolding trim_right
trim_right-StartsClean [] h = tt
trim_right-StartsClean (c ∷ s) h = ground arith

-- The result has no white space at either end.
pub trim_space-IsTrimmed : (s : Text) → IsTrimmed (trim_space s)
unfolding trim_space
trim_space-IsTrimmed s = (
  trim_right-StartsClean (trim_left s) (trim_left-StartsClean s),
  trim_right-EndsClean (trim_left s),
)

trim_left_of_StartsClean : (s : Text) → StartsClean s → trim_left s ≡ s
unfolding trim_left
trim_left_of_StartsClean [] h = refl
trim_left_of_StartsClean (c ∷ s) h = ground arith

trim_right_of_EndsClean : (s : Text) → EndsClean s → trim_right s ≡ s
unfolding trim_right
trim_right_of_EndsClean [] h = refl
trim_right_of_EndsClean (c ∷ []) h = ground arith
trim_right_of_EndsClean (c ∷ d ∷ s) h = rw (trim_right_of_EndsClean (d ∷ s) h) (ground arith)

-- A trimmed text is left as it is.
pub trim_space_of_IsTrimmed : (s : Text) → IsTrimmed s → trim_space s ≡ s
unfolding trim_space
trim_space_of_IsTrimmed s h = rw (trim_left_of_StartsClean s h.0) (trim_right_of_EndsClean s h.1)

pub trim_space_idem : (s : Text) → trim_space (trim_space s) ≡ trim_space s
trim_space_idem s = trim_space_of_IsTrimmed (trim_space s) (trim_space-IsTrimmed s)
