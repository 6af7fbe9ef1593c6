-- ===== src/Participant/Repository/Dorsals.antt =====
-- The dorsal that NextDorsal proposes is free.
use go_finish_line_api.Prelude.{
  ℕ, ◌≡◌, ◌≢◌, ◌⊎◌, ◌∙◌, refl, sym, subst, false, not, ◌&&◌, Option, none, some, List, [], ◌∷◌, any,
  find, ◌==◌, All, inl, inr, Bool-cases, arith, ℤ, pos, ◌+ℤ◌, ◌≤ℤ◌, +ℤ_parts,
}
use go_finish_line_api.Participant.Registration.{Registration}
use go_finish_line_api.Participant.Repository.{
  same_dorsal, clashes, larger, max_dorsal, coalesce, dorsal_in_use,
}
use go_finish_line_api.Participant.Repository.Apart.{Apart}
use go_finish_line_api.Participant.Repository.Sound.{IsRow, waiting, running}

-- A dorsal is at most the maximum of the non-NULL ones.
abbrev Within : Option ℤ → Option ℤ → Type 0
Within none m = Unit {0}
Within (some d) none = ⊥
Within (some d) (some m) = d ≤ℤ m

Within-larger_self : (d m : Option ℤ) → Within d (larger d m)
Within-larger_self none m = tt
Within-larger_self (some d) none = omega arith
Within-larger_self (some d) (some m) = ground arith

Within-larger : (x d m : Option ℤ) → Within x m → Within x (larger d m)
Within-larger none d m h = tt
Within-larger (some x) none m h = h
Within-larger (some x) (some d) (some m) h = ground arith
Within-larger (some x) (some d) none h = absurd h

abbrev AllWithin : ℕ → Option ℤ → List Registration → Type 0
AllWithin race_id m rows = All (λ q. q.race_id ≡ race_id → Within q.dorsal m) rows

AllWithin-larger :
    (race_id : ℕ) (d m : Option ℤ) (rows : List Registration)
    → AllWithin race_id m rows
    → AllWithin race_id (larger d m) rows
AllWithin-larger race_id d m [] h = tt
AllWithin-larger race_id d m (q ∷ rows) (h, hs) =
    (λ e. Within-larger q.dorsal d m (h e), AllWithin-larger race_id d m rows hs)

max_dorsal-AllWithin :
    (race_id : ℕ) (rows : List Registration) → AllWithin race_id (max_dorsal race_id rows) rows
unfolding max_dorsal
max_dorsal-AllWithin race_id [] = tt
max_dorsal-AllWithin race_id (r ∷ rows) = elim (Bool-cases (r.race_id == race_id)) [
  | inl here ↦
      let step : max_dorsal race_id (r ∷ rows) ≡ larger r.dorsal (max_dorsal race_id rows) =
        ground arith in
      subst (λ m. AllWithin race_id m (r ∷ rows)) (sym step)
        (
          (λ _. Within-larger_self r.dorsal (max_dorsal race_id rows)),
          AllWithin-larger race_id r.dorsal (max_dorsal race_id rows) rows
              (max_dorsal-AllWithin race_id rows),
        )
  | inr there ↦
      let step : max_dorsal race_id (r ∷ rows) ≡ max_dorsal race_id rows = ground arith in
      subst (λ m. AllWithin race_id m (r ∷ rows)) (sym step)
        ((λ e. absurd (ground arith)), max_dorsal-AllWithin race_id rows)
]

-- The candidate, MAX + 1.
abbrev pub candidate : ℕ → List Registration → ℤ
candidate race_id rows = coalesce (max_dorsal race_id rows) (pos 0) +ℤ pos 1

Within-fresh :
    (d m : Option ℤ) → Within d m → same_dorsal d (some (coalesce m (pos 0) +ℤ pos 1)) ≡ false
Within-fresh none m h = refl
Within-fresh (some d) none h = absurd h
Within-fresh (some d) (some m) h = ground (arith, +ℤ_parts m (pos 1))

clash-apart : (r q : Registration) → clashes r q ≡ false → q.id ≢ r.id
unfolding clashes
clash-apart r q h e = ground arith

others_apart :
    (id race_id : ℕ) (r : Registration) (qs : List Registration)
    → r.id ≡ id
    → All (λ q. clashes r q ≡ false) qs
    → All (λ q. q.id ≡ id → q.race_id ≡ race_id) qs
others_apart id race_id r [] hit c = tt
others_apart id race_id r (q ∷ qs) hit (c, cs) =
    ((λ e. absurd (clash-apart r q c (e ∙ sym hit))), others_apart id race_id r qs hit cs)

-- All rows of an id are in the race of the one that is found.
same_race :
    (id race_id : ℕ) (reg : Registration) (rows : List Registration)
    → Apart rows
    → find (λ r. r.id == id) rows ≡ some reg
    → reg.race_id ≡ race_id
    → All (λ r. r.id ≡ id → r.race_id ≡ race_id) rows
same_race id race_id reg [] h e k = tt
same_race id race_id reg (r ∷ rows) (hr, hs) e k = elim (Bool-cases (r.id == id)) [
  | inl hit ↦
      let same : r.race_id ≡ reg.race_id = ground arith in
      ((λ _. same ∙ k), others_apart id race_id r rows (ground arith) hr)
  | inr miss ↦ (λ q. absurd (ground arith), same_race id race_id reg rows hs (ground arith) k)
]

inner_free :
    (id race_id : ℕ) (rows qs : List Registration)
    → AllWithin race_id (max_dorsal race_id rows) qs
    → any
        (λ q.
          not (q.id == id)
          && q.race_id == race_id
          && same_dorsal q.dorsal (some (candidate race_id rows)))
        qs
      ≡ false
inner_free id race_id rows [] h = refl
inner_free id race_id rows (q ∷ qs) (h, hs) = elim (Bool-cases (q.race_id == race_id)) [
  | inl here ↦ ground (
    arith,
    Within-fresh q.dorsal (max_dorsal race_id rows) (h (ground arith)),
    inner_free id race_id rows qs hs,
  )
  | inr there ↦ ground (arith, inner_free id race_id rows qs hs)
]

outer_free :
    (id race_id : ℕ) (rows rs : List Registration)
    → All (λ r. r.id ≡ id → r.race_id ≡ race_id) rs
    → any
        (λ r.
          r.id == id
          && any
              (λ q.
                not (q.id == id)
                && q.race_id == r.race_id
                && same_dorsal q.dorsal (some (candidate race_id rows)))
              rows)
        rs
      ≡ false
outer_free id race_id rows [] h = refl
outer_free id race_id rows (r ∷ rs) (h, hs) = elim (Bool-cases (r.id == id)) [
  | inl hit ↦
      let same : r.race_id ≡ race_id = h (ground arith) in
      let inner = inner_free id race_id rows rows (max_dorsal-AllWithin race_id rows) in
      rw (hit, same, inner) (outer_free id race_id rows rs hs)
  | inr miss ↦ rw miss (outer_free id race_id rows rs hs)
]

-- In rows that are apart, for a registration of the race that is among them, no other registration
-- of the race has the candidate, MAX + 1.
pub candidate-free :
    (id race_id : ℕ) (reg : Registration) (rows : List Registration)
    → Apart rows
    → find (λ r. r.id == id) rows ≡ some reg
    → reg.race_id ≡ race_id
    → dorsal_in_use id (some (candidate race_id rows)) rows ≡ false
unfolding dorsal_in_use
candidate-free id race_id reg rows h e k =
    outer_free id race_id rows rows (same_race id race_id reg rows h e k)

larger-positive :
    (d m : Option ℤ)
    → (d ≡ none) ⊎ ((x : ℤ) × (d ≡ some x) × (pos 1 ≤ℤ x))
    → pos 0 ≤ℤ coalesce m (pos 0)
    → pos 0 ≤ℤ coalesce (larger d m) (pos 0)
larger-positive d m h k = ground arith

positive_of_IsRow :
    (r : Registration)
    → IsRow r
    → (r.dorsal ≡ none) ⊎ ((x : ℤ) × (r.dorsal ≡ some x) × (pos 1 ≤ℤ x))
positive_of_IsRow r (waiting a b c) = inl b
positive_of_IsRow r (running d t a b p c) = inr (d, b, p)

max_dorsal-nonneg :
    (race_id : ℕ) (rows : List Registration)
    → All IsRow rows
    → pos 0 ≤ℤ coalesce (max_dorsal race_id rows) (pos 0)
unfolding max_dorsal
max_dorsal-nonneg race_id [] h = omega arith
max_dorsal-nonneg race_id (r ∷ rows) (h, hs) = elim (Bool-cases (r.race_id == race_id)) [
  | inl here ↦ rw here (
      larger-positive r.dorsal (max_dorsal race_id rows) (positive_of_IsRow r h)
        (max_dorsal-nonneg race_id rows hs))
  | inr there ↦ rw there (max_dorsal-nonneg race_id rows hs)
]

-- The candidate is 1 or more.
pub candidate-pos :
    (race_id : ℕ) (rows : List Registration) → All IsRow rows → pos 1 ≤ℤ candidate race_id rows
candidate-pos race_id rows h = omega (
  arith,
  max_dorsal-nonneg race_id rows h,
  +ℤ_parts (coalesce (max_dorsal race_id rows) (pos 0)) (pos 1),
)
