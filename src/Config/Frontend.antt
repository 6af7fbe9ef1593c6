-- ===== src/Config/Frontend.antt =====
-- The frontend's address in the settings.
use go_finish_line_api.Prelude.{
  ℕ, ◌≡◌, refl, sym, ◌∙◌, ◌⊎◌, Bool, true, false, not, [], ◌∷◌, any, ◌==◌, Bool-cases, inl, inr,
  arith,
}
use go_finish_line_api.Text.{Text, is_empty}
use go_finish_line_api.Apperr.{ok, err}
use go_finish_line_api.Config.{
  Environment, Loader, get_env, trim_slashes, read_config, config_of, frontend_required,
}

abbrev pub no_slash : ℕ → Bool
no_slash c = not (c == b'/')

-- The text is not empty, and its last character is no slash.
abbrev pub EndsApart : Text → Type 0
EndsApart [] = ⊥
EndsApart (c ∷ []) = no_slash c ≡ true
EndsApart (c ∷ d ∷ s) = EndsApart (d ∷ s)

EndsApart-longer : (c : ℕ) (s : Text) → EndsApart s → EndsApart (c ∷ s)
EndsApart-longer c [] h = absurd h
EndsApart-longer c (d ∷ s) h = h

empty_of : (s : Text) → is_empty s ≡ true → s ≡ []
empty_of [] h = refl
empty_of (c ∷ s) h = absurd (ground arith)

trim_slashes-empty : (s : Text) → is_empty (trim_slashes s) ≡ not (any no_slash s)
unfolding trim_slashes
trim_slashes-empty [] = refl
trim_slashes-empty (c ∷ s) = ground (arith, trim_slashes-empty s)

trim_slashes-EndsApart : (s : Text) → is_empty (trim_slashes s) ≡ false → EndsApart (trim_slashes s)
unfolding trim_slashes
trim_slashes-EndsApart [] h = absurd (ground arith)
trim_slashes-EndsApart (c ∷ s) h = elim (Bool-cases (c == b'/')) [
  | inl slash ↦ elim (Bool-cases (is_empty (trim_slashes s))) [
    | inl bare ↦ absurd (ground (arith, h, slash, bare))
    | inr more ↦
        rw (slash, more) (EndsApart-longer c (trim_slashes s) (trim_slashes-EndsApart s more))
  ]
  | inr other ↦ rw other (elim (Bool-cases (is_empty (trim_slashes s))) [
    | inl last ↦ rw (empty_of (trim_slashes s) last) (rw other refl)
    | inr more ↦ EndsApart-longer c (trim_slashes s) (trim_slashes-EndsApart s more)
  ])
]

flipped : (a b : Bool) → not a ≡ b → a ≡ not b
flipped a b h = ground arith

-- The settings are read if and only if the frontend's address has a character that is no slash;
-- then the address in them is not empty and does not end in a slash, and otherwise the error is that
-- the variable is required.
pub read_config-frontend :
    (lib : Loader) (e : Environment)
    → ((any no_slash (get_env e "FRONTEND_BASE_URL" "") ≡ true)
        × ((url : Text) × ((read_config lib e ≡ ok (config_of lib e url)) × EndsApart url)))
      ⊎ ((any no_slash (get_env e "FRONTEND_BASE_URL" "") ≡ false)
          × (read_config lib e ≡ err frontend_required))
unfolding read_config
read_config-frontend lib e =
    let value = get_env e "FRONTEND_BASE_URL" "" in
    let kept = trim_slashes-empty value in
    elim (Bool-cases (is_empty (trim_slashes value))) [
      | inl bare ↦ inr (flipped (any no_slash value) true (sym kept ∙ bare), rw bare refl)
      | inr some_url ↦ inl (
        flipped (any no_slash value) false (sym kept ∙ some_url),
        (trim_slashes value, (rw some_url refl, trim_slashes-EndsApart value some_url)),
      )
    ]
