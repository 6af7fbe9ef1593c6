-- ===== src/Participant/Repository/Places.antt =====
-- Rows that are apart have different dorsals, so a race has no more confirmed rows than dorsals to give.
use go_finish_line_api.Prelude.{
  ℕ, zero, suc, ◌+◌, ◌≤◌, ◌≡◌, Bool, true, false, ◌&&◌, Option, none, some, List, [], ◌∷◌, select,
  length, ◌==◌, ℤ, pos, negsuc, ◌≤ℤ◌, leb_ℤ, All, Bool-cases, inl, inr, arith, subst,
}
use go_finish_line_api.Participant.Values.{is_confirmed}
use go_finish_line_api.Participant.Registration.{Registration}
use go_finish_line_api.Participant.Repository.{clashes, same_dorsal}
use go_finish_line_api.Participant.Repository.Apart.{Apart}
use go_finish_line_api.Participant.Repository.Sound.{IsRow, waiting, running}

-- The confirmed rows of a race.
abbrev pub confirmed_in : ℕ → List Registration → List Registration
confirmed_in race_id = select (λ r. r.race_id == race_id && is_confirmed r.status)

-- A dorsal, if there is one, is not above a bound.
abbrev pub AtMost : ℤ → Option ℤ → Type 0
AtMost capacity none = Unit {0}
AtMost capacity (some d) = d ≤ℤ capacity

abbrev up_to : ℕ → Option ℤ → Bool
up_to m none = false
up_to m (some d) = leb_ℤ d (pos m)

up_to-next :
    (m : ℕ) (d : Option ℤ)
    → up_to (suc m) d ≡ true
    → up_to m d ≡ false
    → same_dorsal d (some (pos (suc m))) ≡ true
up_to-next m none h k = ground arith
up_to-next m (some (pos d)) h k = ground arith
up_to-next m (some (negsuc d)) h k = ground arith

-- Two rows with one dorsal share it with each other.
same_dorsal-shared :
    (d : ℤ) (a b : Option ℤ)
    → same_dorsal a (some d) ≡ true
    → same_dorsal b (some d) ≡ true
    → same_dorsal a b ≡ true
same_dorsal-shared d none b h k = ground arith
same_dorsal-shared d (some a) none h k = ground arith
same_dorsal-shared d (some a) (some b) h k = ground arith

module _ (race_id : ℕ) where
  abbrev within : ℕ → Registration → Bool
  within m r = r.race_id == race_id && (is_confirmed r.status && up_to m r.dorsal)

  abbrev exactly : ℤ → Registration → Bool
  exactly d r = r.race_id == race_id && same_dorsal r.dorsal (some d)

  none_below : (r : Registration) → IsRow r → within 0 r ≡ false
  none_below r (waiting a b c) = ground (arith, a, b)
  none_below r (running d t a b c e) = ground (arith, a, b, c)

  none_within : (rows : List Registration) → All IsRow rows → length (select (within 0) rows) ≤ 0
  none_within [] h = omega arith
  none_within (r ∷ rows) (good, h) = ground (arith, none_below r good, none_within rows h)

  one_more :
      (m : ℕ) (r : Registration)
      → within (suc m) r ≡ true
      → within m r ≡ false
      → exactly (pos (suc m)) r ≡ true
  one_more m r h k = ground (arith, up_to-next m r.dorsal)

  split :
      (m : ℕ) (rows : List Registration)
      → length (select (within (suc m)) rows)
        ≤ length (select (within m) rows) + length (select (exactly (pos (suc m))) rows)
  split m [] = omega arith
  split m (r ∷ rows) = elim (Bool-cases (within (suc m) r)) [
    | inr out ↦ ground (arith, out, split m rows)
    | inl next ↦ elim (Bool-cases (within m r)) [
      | inl low ↦ ground (arith, next, low, split m rows)
      | inr high ↦ ground (arith, next, high, one_more m r next high, split m rows)
    ]
  ]

  no_other :
      (d : ℤ) (r : Registration) (rows : List Registration)
      → exactly d r ≡ true
      → All (λ q. clashes r q ≡ false) rows
      → length (select (exactly d) rows) ≤ 0
  unfolding clashes
  no_other d r [] h k = omega arith
  no_other d r (q ∷ rows) h (kq, ks) =
      ground (arith, same_dorsal-shared d r.dorsal q.dorsal, no_other d r rows h ks, kq)

  at_most_one :
      (d : ℤ) (rows : List Registration) → Apart rows → length (select (exactly d) rows) ≤ 1
  at_most_one d [] h = omega arith
  at_most_one d (r ∷ rows) (hr, hs) = elim (Bool-cases (exactly d r)) [
    | inl hit ↦ ground (arith, hit, no_other d r rows hit hr)
    | inr miss ↦ ground (arith, miss, at_most_one d rows hs)
  ]

  places :
      (m : ℕ) (rows : List Registration)
      → Apart rows
      → All IsRow rows
      → length (select (within m) rows) ≤ m
  places zero rows apart good = none_within rows good
  places (suc m) rows apart good =
      omega (arith, split m rows, at_most_one (pos (suc m)) rows apart, places m rows apart good)

  confirmed_up_to :
      (n : ℕ) (r : Registration)
      → IsRow r
      → AtMost (pos n) r.dorsal
      → is_confirmed r.status ≡ true
      → up_to n r.dorsal ≡ true
  confirmed_up_to n r (waiting a b c) low h = ground (arith, a, h)
  confirmed_up_to n r (running d t a b c e) low h =
      let small : d ≤ℤ pos n = subst (AtMost (pos n)) b low in rw b (ground (arith, small))

  confirmed_within :
      (n : ℕ) (rows : List Registration)
      → All IsRow rows
      → All (λ r. AtMost (pos n) r.dorsal) rows
      → length (confirmed_in race_id rows) ≤ length (select (within n) rows)
  confirmed_within n [] good low = omega arith
  confirmed_within n (r ∷ rows) (g, good) (l, low) =
      ground (arith, confirmed_up_to n r g l, confirmed_within n rows good low)

  -- In sound tables a race has no more confirmed rows than the bound on its dorsals.
  pub length-confirmed_in :
      (n : ℕ) (rows : List Registration)
      → Apart rows
      → All IsRow rows
      → All (λ r. AtMost (pos n) r.dorsal) rows
      → length (confirmed_in race_id rows) ≤ n
  length-confirmed_in n rows apart good low =
      omega (arith, confirmed_within n rows good low, places n rows apart good)
