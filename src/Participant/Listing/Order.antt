-- ===== src/Participant/Listing/Order.antt =====
-- The order of the listing of a race, and what sorting does to the lines.
use go_finish_line_api.Prelude.{
  suc, ◌+◌, ◌≤◌, ◌<◌, ◌≡◌, ◌⊎◌, refl, Bool, true, false, Option, none, some, List, [], ◌∷◌, select,
  length, ℤ, pos_part, neg_part, Bool-cases, Option-cases, inl, inr, arith,
}
use go_finish_line_api.Civil.{Time, time_key, before}
use go_finish_line_api.Sort.{insert_by, sort_by}
use go_finish_line_api.Participant.Listing.{RegistrationDetail, listed_before}

-- One line may stand before another: a lower dorsal first, the lines without a dorsal last, and
-- among these, as among lines of one dorsal, the older first.
abbrev pub MayPrecede : (d e : Option ℤ) (created created' : Time) → Type 0
MayPrecede (some d) (some e) t u =
    (pos_part d + neg_part e < pos_part e + neg_part d)
    ⊎ ((pos_part d + neg_part e ≡ pos_part e + neg_part d) × (time_key t ≤ time_key u))
MayPrecede (some d) none t u = Unit {0}
MayPrecede none (some e) t u = 1 ≤ 0
MayPrecede none none t u = time_key t ≤ time_key u

abbrev pub Precedes : RegistrationDetail → RegistrationDetail → Type 0
Precedes a b = MayPrecede a.dorsal b.dorsal a.created_at b.created_at

abbrev pub PrecedesNext : RegistrationDetail → List RegistrationDetail → Type 0
PrecedesNext a [] = Unit {0}
PrecedesNext a (b ∷ bs) = Precedes a b

-- Every line may stand before the next.
abbrev pub InOrder : List RegistrationDetail → Type 0
InOrder [] = Unit {0}
InOrder (a ∷ xs) = PrecedesNext a xs × InOrder xs

less-Precedes : (a b : RegistrationDetail) → listed_before a b ≡ true → Precedes a b
unfolding before
less-Precedes a b h = elim (Option-cases a.dorsal) [
  | inl na ↦ elim (Option-cases b.dorsal) [
    | inl nb ↦ rw (na, nb) (ground (arith, h, na, nb))
    | inr (e, nb) ↦ rw (na, nb) (ground (arith, h, na, nb))
  ]
  | inr (d, na) ↦ elim (Option-cases b.dorsal) [
    | inl nb ↦ rw (na, nb) (ground (arith, h, na, nb))
    | inr (e, nb) ↦ rw (na, nb) (ground (arith, h, na, nb))
  ]
]

unless-Precedes : (a b : RegistrationDetail) → listed_before b a ≡ false → Precedes a b
unfolding before
unless-Precedes a b h = elim (Option-cases a.dorsal) [
  | inl na ↦ elim (Option-cases b.dorsal) [
    | inl nb ↦ rw (na, nb) (ground (arith, h, na, nb))
    | inr (e, nb) ↦ rw (na, nb) (ground (arith, h, na, nb))
  ]
  | inr (d, na) ↦ elim (Option-cases b.dorsal) [
    | inl nb ↦ rw (na, nb) (ground (arith, h, na, nb))
    | inr (e, nb) ↦ rw (na, nb) (ground (arith, h, na, nb))
  ]
]

insert-next :
    (a c : RegistrationDetail) (xs : List RegistrationDetail)
    → Precedes a c
    → PrecedesNext a xs
    → PrecedesNext a (insert_by listed_before c xs)
unfolding insert_by
insert-next a c [] h k = h
insert-next a c (b ∷ xs) h k = elim (Bool-cases (listed_before b c)) [
  | inl less ↦ rw less k
  | inr not_less ↦ rw not_less h
]

insert-InOrder :
    (c : RegistrationDetail) (xs : List RegistrationDetail)
    → InOrder xs
    → InOrder (insert_by listed_before c xs)
unfolding insert_by
insert-InOrder c [] h = (tt, tt)
insert-InOrder c (a ∷ xs) (next, h) = elim (Bool-cases (listed_before a c)) [
  | inl less ↦ rw less (insert-next a c xs (less-Precedes a c less) next, insert-InOrder c xs h)
  | inr not_less ↦ rw not_less (unless-Precedes c a not_less, (next, h))
]

pub sort-InOrder : (xs : List RegistrationDetail) → InOrder (sort_by listed_before xs)
unfolding sort_by
sort-InOrder [] = tt
sort-InOrder (a ∷ xs) = insert-InOrder a (sort_by listed_before xs) (sort-InOrder xs)

module _ {A : Type 0} (less : A → A → Bool) where
  pub length-insert_by : (a : A) (xs : List A) → length (insert_by less a xs) ≡ suc (length xs)
  unfolding insert_by
  length-insert_by a [] = refl
  length-insert_by a (x ∷ xs) = ground (arith, length-insert_by a xs)

  pub length-sort_by : (xs : List A) → length (sort_by less xs) ≡ length xs
  unfolding sort_by
  length-sort_by [] = refl
  length-sort_by (x ∷ xs) = ground (arith, length-insert_by x (sort_by less xs), length-sort_by xs)

  -- Sorting loses no item and makes none.
  insert-missed :
      (p : A → Bool) (a : A) (xs : List A)
      → p a ≡ false
      → select p (insert_by less a xs) ≡ select p xs
  unfolding insert_by
  insert-missed p a [] h = ground arith
  insert-missed p a (x ∷ xs) h = ground (arith, insert-missed p a xs h)

  insert-only :
      (p : A → Bool) (a : A) (xs : List A)
      → p a ≡ true
      → select p xs ≡ []
      → select p (insert_by less a xs) ≡ a ∷ []
  unfolding insert_by
  insert-only p a [] h none_yet = ground arith
  insert-only p a (x ∷ xs) h none_yet = ground (arith, insert-only p a xs h)

  sort-none : (p : A → Bool) (xs : List A) → select p xs ≡ [] → select p (sort_by less xs) ≡ []
  unfolding sort_by
  sort-none p [] h = refl
  sort-none p (x ∷ xs) h = ground (arith, insert-missed p x (sort_by less xs), sort-none p xs)

  pub sort-one :
      (p : A → Bool) (a : A) (xs : List A)
      → select p xs ≡ a ∷ []
      → select p (sort_by less xs) ≡ a ∷ []
  unfolding sort_by
  sort-one p a [] h = h
  sort-one p a (x ∷ xs) h = ground (
    arith,
    insert-missed p x (sort_by less xs),
    insert-only p x (sort_by less xs),
    sort-none p xs,
    sort-one p a xs,
  )
