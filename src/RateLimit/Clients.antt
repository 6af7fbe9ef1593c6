-- ===== src/RateLimit/Clients.antt =====
-- The limiters of the clients do not meet.
use go_finish_line_api.Prelude.{
  ◌≡◌, refl, sym, ap, ◌∙◌, Bool, true, false, none, some, List, [], ◌∷◌, Bool-cases, Option-cases,
  inl, inr, arith, ℕ, if◌then◌else◌,
}
use go_finish_line_api.Text.{Text, text_eq}
use go_finish_line_api.Text.Laws.{text_eq_refl, text_eq→eq}
use go_finish_line_api.Civil.{Time}
use go_finish_line_api.RateLimit.{
  RateLibrary, Store, lookup, put, advance, or_new, limiter_for, allow_ip, allow_all, allow_alone,
  new_store,
}

-- What one client was told, and when it called.
abbrev pub answers_for : Text → List (Text × Bool) → List Bool
answers_for ip [] = []
answers_for ip ((key, allowed) ∷ rest) =
    let others = answers_for ip rest in if text_eq key ip then allowed ∷ others else others

abbrev pub times_of : Text → List (Time × Text) → List Time
times_of ip [] = []
times_of ip ((at, key) ∷ calls) =
    let others = times_of ip calls in if text_eq key ip then at ∷ others else others

text_eq-apart :
    (key a b : Text) → text_eq a b ≡ false → text_eq key a ≡ true → text_eq key b ≡ false
text_eq-apart key a b other same = rw (text_eq→eq key a same) other

module _ {Limit Limiter : Type 0} (lib : RateLibrary Limit Limiter) where
  lookup-advance :
      (ip : Text) (l old : Limiter) (ls : List (Text × Limiter))
      → lookup lib ip ls ≡ some old
      → lookup lib ip (advance lib ip l ls) ≡ some l
  unfolding lookup advance
  lookup-advance ip l old [] h = absurd (ground arith)
  lookup-advance ip l old ((key, m) ∷ ls) h = elim (Bool-cases (text_eq key ip)) [
    | inl same ↦ rw (same, same) refl
    | inr other ↦ rw (other, other) (lookup-advance ip l old ls (ground (arith, h, other)))
  ]

  lookup-advance_other :
      (a b : Text) (l : Limiter) (ls : List (Text × Limiter))
      → text_eq a b ≡ false
      → lookup lib b (advance lib a l ls) ≡ lookup lib b ls
  unfolding lookup advance
  lookup-advance_other a b l [] h = refl
  lookup-advance_other a b l ((key, old) ∷ ls) h = elim (Bool-cases (text_eq key a)) [
    | inl same ↦ rw (same, text_eq-apart key a b h same) refl
    | inr other ↦
        rw other (ap (λ r. if text_eq key b then some old else r) (lookup-advance_other a b l ls h))
  ]

  -- The limiter that a call meets is the one that the map holds after it was fetched.
  limiter_for-lookup :
      (ip : Text) (s : Store Limit Limiter)
      → lookup lib ip (limiter_for lib ip s).1.limiters ≡ some (limiter_for lib ip s).0
  unfolding limiter_for lookup put
  limiter_for-lookup ip s = elim (Option-cases (lookup lib ip s.limiters)) [
    | inl missing ↦ rw missing (rw (text_eq_refl ip) refl)
    | inr (l, found) ↦ rw found found
  ]

  -- The limiter that the next call of a client meets.
  abbrev pub held : (ip : Text) → Store Limit Limiter → Limiter
  held ip s = (limiter_for lib ip s).0

  held_found :
      (ip : Text) (s : Store Limit Limiter) (l : Limiter)
      → lookup lib ip s.limiters ≡ some l
      → held ip s ≡ l
  unfolding limiter_for
  held_found ip s l h = ap (λ found. (or_new lib ip s found).0) h

  held_missing :
      (ip : Text) (s : Store Limit Limiter)
      → lookup lib ip s.limiters ≡ none
      → held ip s ≡ lib.new_limiter s.rps s.burst
  unfolding limiter_for
  held_missing ip s h = ap (λ found. (or_new lib ip s found).0) h

  held_of :
      (ip : Text) (s t : Store Limit Limiter)
      → t.rps ≡ s.rps
      → t.burst ≡ s.burst
      → lookup lib ip t.limiters ≡ lookup lib ip s.limiters
      → held ip t ≡ held ip s
  held_of ip s t r b h = elim (Option-cases (lookup lib ip s.limiters)) [
    | inl missing ↦ held_missing ip t (h ∙ missing) ∙ fresh r b ∙ sym (held_missing ip s missing)
    | inr (l, found) ↦ held_found ip t l (h ∙ found) ∙ sym (held_found ip s l found)
  ]
    where
      fresh :
          t.rps ≡ s.rps
          → t.burst ≡ s.burst
          → lib.new_limiter t.rps t.burst ≡ lib.new_limiter s.rps s.burst
      fresh r b = cc

  -- A call leaves the client its limiter, one call older.
  held-own :
      (at : Time) (ip : Text) (s : Store Limit Limiter)
      → held ip (allow_ip lib at ip s).1 ≡ (lib.allow at (held ip s)).1
  unfolding allow_ip
  held-own at ip s =
      held_found ip (allow_ip lib at ip s).1 _
        (lookup-advance ip _ _ (limiter_for lib ip s).1.limiters (limiter_for-lookup ip s))

  limiter_for-frame :
      (a b : Text) (s : Store Limit Limiter)
      → text_eq a b ≡ false
      → lookup lib b (limiter_for lib a s).1.limiters ≡ lookup lib b s.limiters
  unfolding limiter_for lookup put
  limiter_for-frame a b s h = elim (Option-cases (lookup lib a s.limiters)) [
    | inl missing ↦ rw missing (rw h refl)
    | inr (l, found) ↦ rw found refl
  ]

  limiter_for-settings :
      (a : Text) (s : Store Limit Limiter)
      → ((limiter_for lib a s).1.rps ≡ s.rps) × ((limiter_for lib a s).1.burst ≡ s.burst)
  unfolding limiter_for
  limiter_for-settings a s = elim (Option-cases (lookup lib a s.limiters)) [
    | inl missing ↦ rw missing (refl, refl)
    | inr (l, found) ↦ rw found (refl, refl)
  ]

  -- And leaves the other clients theirs.
  held-other :
      (at : Time) (a b : Text) (s : Store Limit Limiter)
      → text_eq a b ≡ false
      → held b (allow_ip lib at a s).1 ≡ held b s
  unfolding allow_ip
  held-other at a b s h =
      let between = (limiter_for lib a s).1 in
      let (r, k) = limiter_for-settings a s in
      held_of b s (allow_ip lib at a s).1 r k
        (lookup-advance_other a b _ between.limiters h ∙ limiter_for-frame a b s h)

  own :
      (at : Time) (ip : Text) (s : Store Limit Limiter) (calls : List (Time × Text))
      → ((t : Store Limit Limiter)
          → answers_for ip (allow_all lib calls t)
            ≡ allow_alone lib (times_of ip calls) (held ip t))
      → (allow_ip lib at ip s).0 ∷ answers_for ip (allow_all lib calls (allow_ip lib at ip s).1)
        ≡ (lib.allow at (held ip s)).0
          ∷ allow_alone lib (times_of ip calls) (lib.allow at (held ip s)).1
  unfolding allow_ip
  own at ip s calls rest =
      ap (λ told. (lib.allow at (held ip s)).0 ∷ told)
        (rest (allow_ip lib at ip s).1
          ∙ ap (allow_alone lib (times_of ip calls)) (held-own at ip s))

  -- From any store on, by the limiter that the client holds, or a new one.
  allow_all-held :
      (calls : List (Time × Text)) (s : Store Limit Limiter) (ip : Text)
      → answers_for ip (allow_all lib calls s) ≡ allow_alone lib (times_of ip calls) (held ip s)
  unfolding allow_all allow_alone
  allow_all-held [] s ip = refl
  allow_all-held ((at, key) ∷ calls) s ip = elim (Bool-cases (text_eq key ip)) [
    | inl same ↦
        rw (same, text_eq→eq key ip same) (own at ip s calls (λ t. allow_all-held calls t ip))
    | inr other ↦ rw other (
        allow_all-held calls (allow_ip lib at key s).1 ip
        ∙ ap (allow_alone lib (times_of ip calls)) (held-other at key ip s other))
  ]

  -- Whatever the calls of the clients and their order, what a client is told from the start of the
  -- process on is what one new limiter of its own, with the rate and the burst of the group, tells it
  -- for its own calls alone.
  pub allow_all-refines :
      (calls : List (Time × Text)) (rps : Limit) (burst : ℕ) (ip : Text)
      → answers_for ip (allow_all lib calls (new_store rps burst))
        ≡ allow_alone lib (times_of ip calls) (lib.new_limiter rps burst)
  unfolding new_store lookup
  allow_all-refines calls rps burst ip =
      allow_all-held calls (new_store rps burst) ip
      ∙ ap (allow_alone lib (times_of ip calls)) (held_missing ip (new_store rps burst) refl)
