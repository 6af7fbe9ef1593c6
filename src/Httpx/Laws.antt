-- ===== src/Httpx/Laws.antt =====
-- What a client can learn from an error response.
use go_finish_line_api.Prelude.{ℕ, ◌≡◌, refl, ◌⊎◌, inl, inr, none}
use go_finish_line_api.Apperr.{
  Kind, validation, unauthorized, conflict, AppError, kind, msg, Err, app, signal, wrap, as_app,
  root,
}
use go_finish_line_api.Httpx.{respond, error, respond_error, status_for}

-- The status that answers an error of a category, by the table of RFC 9110.
abbrev pub IsAnswerTo : Kind → ℕ → Type 0
IsAnswerTo validation status = status ≡ 400
IsAnswerTo unauthorized status = status ≡ 401
IsAnswerTo Kind.not_found status = status ≡ 404
IsAnswerTo conflict status = status ≡ 409

status_for-IsAnswerTo : (k : Kind) → IsAnswerTo k (status_for k)
unfolding status_for
status_for-IsAnswerTo validation = refl
status_for-IsAnswerTo unauthorized = refl
status_for-IsAnswerTo Kind.not_found = refl
status_for-IsAnswerTo conflict = refl

-- An error is answered by the text of the domain error at the end of its chain and by the status of
-- its category, 400 for validation, 401 for a lack of authorization, 404 for what is not found and
-- 409 for a conflict,
-- whatever context was wrapped around it; a chain that ends in no domain error is answered by
-- 500 and a fixed text, so that no inner text reaches the client.
pub respond_error_total :
    {A : Type 0} (e : Err)
    → ((a : AppError) × (root e ≡ app a)
        × IsAnswerTo (kind a) (respond_error {A = A} e).status
        × ((respond_error {A = A} e).body ≡ error (msg a)))
      ⊎ ((as_app e ≡ none)
          × (respond_error {A = A} e ≡ respond 500 (error "internal server error")))
unfolding respond_error root
respond_error_total (app a) = inl (a, refl, status_for-IsAnswerTo (kind a), refl)
respond_error_total (signal s) = inr (refl, refl)
respond_error_total (wrap context e) = respond_error_total e
