-- ===== src/Participant/Values/Patterns.antt =====
-- Phone numbers and document ids: what the patterns accept, and that a normalised value is left
-- as it is.
use go_finish_line_api.Prelude.{
  ℕ, suc, ◌+◌, ◌≤◌, ◌≡◌, refl, ap, sym, subst, ◌↔◌, All, Bool, true, false, [], ◌∷◌, ◌++◌, inl, inr,
  arith, Bool-cases, length,
}
use go_finish_line_api.Text.{Text, is_space}
use go_finish_line_api.Text.Laws.{IsTrimmed, trim_space_of_IsTrimmed}
use go_finish_line_api.Apperr.{ok}
use go_finish_line_api.Participant.Values.{
  is_digit, is_alphanumeric, every, repeats, matches_phone, is_separator, strip_separators,
  normalize_phone, matches_complement, matches_digits_then, matches_document_id,
}

every→All : (p : ℕ → Bool) (t : Text) → every p t ≡ true → All (λ c. p c ≡ true) t
unfolding every
every→All p [] h = tt
every→All p (c ∷ t) h = ground (arith, every→All p t)

-- A character that normalisation leaves alone.
abbrev pub IsPlain : ℕ → Type 0
IsPlain c = (is_space c ≡ false) × (is_separator c ≡ false)

abbrev IsSolid : ℕ → Type 0
IsSolid c = is_space c ≡ false

All-mono : {P Q : ℕ → Type 0} (f : (c : ℕ) → P c → Q c) (t : Text) → All P t → All Q t
All-mono f [] h = tt
All-mono f (c ∷ t) h = (f c h.0, All-mono f t h.1)

IsTrimmed-of_IsSolid : (t : Text) → All IsSolid t → IsTrimmed t
IsTrimmed-of_IsSolid [] h = (tt, tt)
IsTrimmed-of_IsSolid (c ∷ []) h = (h.0, h.0)
IsTrimmed-of_IsSolid (c ∷ d ∷ t) h = (h.0, (IsTrimmed-of_IsSolid (d ∷ t) h.1).1)

strip_separators_of_IsPlain : (t : Text) → All IsPlain t → strip_separators t ≡ t
unfolding strip_separators
strip_separators_of_IsPlain [] h = refl
strip_separators_of_IsPlain (c ∷ t) h = ground (arith, strip_separators_of_IsPlain t)

is_digit-IsPlain : (c : ℕ) → is_digit c ≡ true → IsPlain c
unfolding is_digit is_space is_separator
is_digit-IsPlain c h = ground arith

is_alphanumeric-IsSolid : (c : ℕ) → is_alphanumeric c ≡ true → IsSolid c
unfolding is_alphanumeric is_space
is_alphanumeric-IsSolid c h = ground arith

repeats-IsPlain : (lo hi : ℕ) (t : Text) → repeats is_digit lo hi t ≡ true → All IsPlain t
unfolding repeats
repeats-IsPlain lo hi t h = All-mono is_digit-IsPlain t (every→All is_digit t (ground arith))

plus-IsPlain : (c : ℕ) → c ≡ b'+' → IsPlain c
unfolding is_space is_separator
plus-IsPlain c h = ground arith

matches_phone-IsPlain : (t : Text) → matches_phone t ≡ true → All IsPlain t
unfolding matches_phone
matches_phone-IsPlain [] h = tt
matches_phone-IsPlain (c ∷ t) h =
    ground (arith, plus-IsPlain c, repeats-IsPlain 7 15 t, repeats-IsPlain 7 15 (c ∷ t))

matches_phone_of_ok : (raw p : Text) → normalize_phone raw ≡ ok p → matches_phone p ≡ true
unfolding normalize_phone
matches_phone_of_ok raw p h = ground arith

-- What NormalizePhone returns has neither white space nor separators in it, and NormalizePhone
-- returns it again when it is given back.
pub normalize_phone_idem :
    (raw p : Text) → normalize_phone raw ≡ ok p → All IsPlain p × (normalize_phone p ≡ ok p)
unfolding normalize_phone
normalize_phone_idem raw p h =
    let good = matches_phone_of_ok raw p h in
    let plain = matches_phone-IsPlain p good in
    let trimmed = IsTrimmed-of_IsSolid p (All-mono (λ c q. q.0) p plain) in
    (
      plain,
      rw (trim_space_of_IsTrimmed p trimmed, strip_separators_of_IsPlain p plain) (ground arith),
    )

-- A Bolivian CI: 5 to 10 digits, and a complement or nothing.
pub record IsDocumentId (t : Text) : Type 0 where
  pub digits : Text
  pub complement : Text
  pub splits : t ≡ digits ++ complement
  pub all_digits : every is_digit digits ≡ true
  pub enough : (5 ≤ length digits) × (length digits ≤ 10)
  pub complements : matches_complement complement ≡ true

-- The same with `n` digits read before.
record IsRest (n : ℕ) (t : Text) : Type 0 where
  digits : Text
  complement : Text
  splits : t ≡ digits ++ complement
  all_digits : every is_digit digits ≡ true
  enough : (5 ≤ n + length digits) × (n + length digits ≤ 10)
  complements : matches_complement complement ≡ true

IsRest-cons : (n c : ℕ) (t : Text) → is_digit c ≡ true → IsRest (suc n) t → IsRest n (c ∷ t)
unfolding every
IsRest-cons n c t h r = record {
  digits = c ∷ r.digits;
  complement = r.complement;
  splits = ap (λ u. c ∷ u) r.splits;
  all_digits = ground (arith, r.all_digits);
  enough = omega (arith, r.enough);
  complements = r.complements;
}

matches_digits_then_sound : (n : ℕ) (t : Text) → matches_digits_then n t ≡ true → IsRest n t
unfolding matches_digits_then
matches_digits_then_sound n [] h = record {
  digits = [];
  complement = [];
  splits = refl;
  all_digits = unfold every in refl;
  enough = (ground arith, ground arith);
  complements = unfold matches_complement in refl;
}
matches_digits_then_sound n (c ∷ t) h = elim (Bool-cases (is_digit c)) [
  | inl digit ↦
      IsRest-cons n c t digit
        (matches_digits_then_sound (suc n) t (rw (digit, matches_digits_then) at h))
  | inr stop ↦ record {
    digits = [];
    complement = c ∷ t;
    splits = refl;
    all_digits = unfold every in refl;
    enough = (ground arith, ground arith);
    complements = ground arith;
  }
]

matches_digits_then_complete :
    (n : ℕ) (ds tail : Text)
    → every is_digit ds ≡ true
    → 5 ≤ n + length ds
    → n + length ds ≤ 10
    → matches_complement tail ≡ true
    → matches_digits_then n (ds ++ tail) ≡ true
unfolding matches_digits_then every
matches_digits_then_complete n [] [] h lo hi k = ground arith
matches_digits_then_complete n [] (c ∷ tail) h lo hi k =
    unfold is_digit matches_complement in ground arith
matches_digits_then_complete n (c ∷ ds) tail h lo hi k =
    ground (arith, matches_digits_then_complete (suc n) ds tail)

-- A document id matches exactly when it is 5 to 10 digits followed by a complement or by nothing.
pub matches_document_id_iff : (t : Text) → (matches_document_id t ≡ true) ↔ IsDocumentId t
unfolding matches_document_id
matches_document_id_iff t = (to, from)
  where
    to : matches_digits_then 0 t ≡ true → IsDocumentId t
    to h =
        let r = matches_digits_then_sound 0 t h in
        record {
          digits = r.digits;
          complement = r.complement;
          splits = r.splits;
          all_digits = r.all_digits;
          enough = omega (arith, r.enough);
          complements = r.complements;
        }

    from : IsDocumentId t → matches_digits_then 0 t ≡ true
    from r =
        subst (λ u. matches_digits_then 0 u ≡ true) (sym r.splits)
          (matches_digits_then_complete 0 r.digits r.complement r.all_digits (omega arith)
            (omega arith) r.complements)
