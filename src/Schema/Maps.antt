-- ===== src/Schema/Maps.antt =====
-- Lists of rows, through a conversion of their items.
use go_finish_line_api.Prelude.{
  ◌≡◌, refl, ap, Bool, none, some, List, [], ◌∷◌, ◌++◌, map, any, select, find, Bool-cases, inl,
  inr, arith,
}

module _ {A B : Type 0} (f : A → B) where
  pub find-map-none :
      (p : B → Bool) (xs : List A) → find (λ x. p (f x)) xs ≡ none → find p (map f xs) ≡ none
  find-map-none p [] h = refl
  find-map-none p (x ∷ xs) h = ground (arith, find-map-none p xs)

  pub find-map-some :
      (p : B → Bool) (xs : List A) (x : A)
      → find (λ x. p (f x)) xs ≡ some x
      → find p (map f xs) ≡ some (f x)
  find-map-some p [] x h = ground arith
  find-map-some p (y ∷ xs) x h = ground (arith, find-map-some p xs x)

  pub any-map_by :
      (p : B → Bool) (q : A → Bool)
      → ((x : A) → p (f x) ≡ q x)
      → (xs : List A) → any p (map f xs) ≡ any q xs
  any-map_by p q e [] = refl
  any-map_by p q e (x ∷ xs) = rw (e x, any-map_by p q e xs) refl

  pub any-map : (p : B → Bool) (xs : List A) → any p (map f xs) ≡ any (λ x. p (f x)) xs
  any-map p xs = any-map_by p (λ x. p (f x)) (λ x. refl) xs

  pub map-append : (xs ys : List A) → map f (xs ++ ys) ≡ map f xs ++ map f ys
  map-append [] ys = refl
  map-append (x ∷ xs) ys = ap (λ rest. f x ∷ rest) (map-append xs ys)

  pub map-map :
      (g : B → B) (h : A → A)
      → ((x : A) → g (f x) ≡ f (h x))
      → (xs : List A) → map g (map f xs) ≡ map f (map h xs)
  map-map g h e [] = refl
  map-map g h e (x ∷ xs) = rw (e x, map-map g h e xs) refl

  pub select-map :
      (p : B → Bool) (xs : List A) → select p (map f xs) ≡ map f (select (λ x. p (f x)) xs)
  select-map p [] = refl
  select-map p (x ∷ xs) = elim (Bool-cases (p (f x))) [
    | inl keep ↦ rw (keep, select-map p xs) refl
    | inr drop ↦ rw (drop, select-map p xs) refl
  ]
