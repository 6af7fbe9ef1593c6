-- ===== src/Participant/Repository/Apart.antt =====
-- The unique constraints of the table of registrations: rows that are pairwise apart stay so under
-- every statement of the adapter.
use go_finish_line_api.Prelude.{
  ℕ, ◌≡◌, refl, Bool, false, not, ◌&&◌, Option, none, some, List, [], ◌∷◌, ◌++◌, map, any, select,
  ◌==◌, All, All-append, inl, inr, Bool-cases, arith, ℤ,
}
use go_finish_line_api.Civil.{Time}
use go_finish_line_api.Participant.Values.{Status}
use go_finish_line_api.Participant.Registration.{Registration}
use go_finish_line_api.Participant.Repository.{same_dorsal, clashes, dorsal_in_use, confirm_row}

-- No two rows share an id, the pair of race and person, or the pair of race and dorsal.
abbrev pub Apart : List Registration → Type 0
Apart [] = Unit {0}
Apart (r ∷ rs) = All (λ q. clashes r q ≡ false) rs × Apart rs

-- A test that holds of no item.
any-false→All {ℓ} :
    {A : Type ℓ} (p : A → Bool) (xs : List A) → any p xs ≡ false → All (λ x. p x ≡ false) xs
any-false→All p [] h = tt
any-false→All p (x ∷ xs) h = ground (arith, any-false→All p xs)

same_dorsal_comm : (a b : Option ℤ) → same_dorsal a b ≡ same_dorsal b a
same_dorsal_comm none none = refl
same_dorsal_comm none (some b) = refl
same_dorsal_comm (some a) none = refl
same_dorsal_comm (some a) (some b) = ground arith

clashes_comm : (a b : Registration) → clashes a b ≡ clashes b a
unfolding clashes
clashes_comm a b = rw (same_dorsal_comm a.dorsal b.dorsal) (ground arith)

All-clashes_comm :
    (r : Registration) (rows : List Registration)
    → All (λ q. clashes r q ≡ false) rows
    → All (λ q. clashes q r ≡ false) rows
All-clashes_comm r [] h = tt
All-clashes_comm r (q ∷ rows) (h, hs) = (rw (clashes_comm q r) h, All-clashes_comm r rows hs)

-- A row that passes the insertion's test may be added.
pub Apart-insert :
    (r : Registration) (rows : List Registration)
    → Apart rows
    → any (clashes r) rows ≡ false
    → Apart (rows ++ r ∷ [])
Apart-insert r [] h k = (tt, tt)
Apart-insert r (q ∷ rows) (hq, hs) k =
    let each = All-clashes_comm r (q ∷ rows) (any-false→All (clashes r) (q ∷ rows) k) in
    (
      All-append (λ x. clashes q x ≡ false) rows (r ∷ []) hq (each.0, tt),
      Apart-insert r rows hs (ground arith),
    )

All-select :
    (P : Registration → Type 0) (p : Registration → Bool) (rows : List Registration)
    → All P rows
    → All P (select p rows)
All-select P p [] h = tt
All-select P p (r ∷ rows) h = ground (arith, All-select P p rows h.1)

-- Deletion keeps rows apart.
pub Apart-select :
    (p : Registration → Bool) (rows : List Registration) → Apart rows → Apart (select p rows)
Apart-select p [] h = tt
Apart-select p (r ∷ rows) (hr, hs) = elim (Bool-cases (p r)) [
  | inl kept ↦ rw kept (All-select (λ q. clashes r q ≡ false) p rows hr, Apart-select p rows hs)
  | inr gone ↦ rw gone (Apart-select p rows hs)
]

module _ (id : ℕ) (status : Status) (dorsal : Option ℤ) (at : Option Time) where
  -- Row `q` has the dorsal in the race of row `r`, which is to get it.
  abbrev blocks : Registration → Registration → Bool
  blocks r q =
      r.id == id && (not (q.id == id) && q.race_id == r.race_id && same_dorsal q.dorsal dorsal)

  abbrev Free : Registration → List Registration → Type 0
  Free r rows = All (λ q. blocks r q ≡ false) rows

  Free-row :
      (r : Registration) (rows : List Registration)
      → (r.id == id
          && any
              (λ q. not (q.id == id) && q.race_id == r.race_id && same_dorsal q.dorsal dorsal)
              rows)
        ≡ false
      → Free r rows
  Free-row r [] h = tt
  Free-row r (q ∷ rows) h = (ground arith, Free-row r rows (ground arith))

  All-Free :
      (rows others : List Registration)
      → any
          (λ r.
            r.id == id
            && any
                (λ q. not (q.id == id) && q.race_id == r.race_id && same_dorsal q.dorsal dorsal)
                others)
          rows
        ≡ false
      → All (λ r. Free r others) rows
  All-Free [] others h = tt
  All-Free (r ∷ rows) others h =
      (Free-row r others (ground arith), All-Free rows others (ground arith))

  confirm_row-apart :
      (r q : Registration)
      → clashes r q ≡ false
      → blocks r q ≡ false
      → blocks q r ≡ false
      → clashes (confirm_row id status dorsal at r) (confirm_row id status dorsal at q) ≡ false
  unfolding clashes
  confirm_row-apart r q h a b = ground (
    arith,
    same_dorsal_comm r.dorsal q.dorsal,
    same_dorsal_comm dorsal q.dorsal,
    same_dorsal_comm dorsal r.dorsal,
  )

  All-confirm_row-apart :
      (r : Registration) (rows : List Registration)
      → All (λ q. clashes r q ≡ false) rows
      → Free r rows
      → All (λ q. blocks q r ≡ false) rows
      → All
          (λ q. clashes (confirm_row id status dorsal at r) q ≡ false)
          (map (confirm_row id status dorsal at) rows)
  All-confirm_row-apart r [] h a b = tt
  All-confirm_row-apart r (q ∷ rows) (h, hs) (a, more) (b, bs) =
      (confirm_row-apart r q h a b, All-confirm_row-apart r rows hs more bs)

  Free-heads :
      (r : Registration) (rows others : List Registration)
      → All (λ q. Free q (r ∷ others)) rows
      → All (λ q. blocks q r ≡ false) rows × All (λ q. Free q others) rows
  Free-heads r [] others h = (tt, tt)
  Free-heads r (q ∷ rows) others ((hb, hf), hs) =
      let (heads, tails) = Free-heads r rows others hs in ((hb, heads), (hf, tails))

  Apart-map :
      (rows : List Registration)
      → Apart rows
      → All (λ r. Free r rows) rows
      → Apart (map (confirm_row id status dorsal at) rows)
  Apart-map [] h f = tt
  Apart-map (r ∷ rows) (hr, hs) (fr, fs) =
      let (heads, tails) = Free-heads r rows rows fs in
      (All-confirm_row-apart r rows hr fr.1 heads, Apart-map rows hs tails)

  -- A confirmation that passes the test for its dorsal keeps rows apart.
  pub Apart-confirm_row :
      (rows : List Registration)
      → Apart rows
      → dorsal_in_use id dorsal rows ≡ false
      → Apart (map (confirm_row id status dorsal at) rows)
  unfolding dorsal_in_use
  Apart-confirm_row rows h free = Apart-map rows h (All-Free rows rows free)
