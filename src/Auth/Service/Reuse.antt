-- ===== src/Auth/Service/Reuse.antt =====
-- A refresh token that is presented after its use.
use go_finish_line_api.Prelude.{
  ℕ, ◌≡◌, refl, subst, sym, ◌∙◌, Bool, true, false, not, ◌&&◌, Option, some, is_some, List, [], ◌∷◌,
  map, find, any, ◌==◌, arith, Bool-cases, inl, inr,
}
use go_finish_line_api.Text.{Text, text_eq}
use go_finish_line_api.Civil.{Time}
use go_finish_line_api.Apperr.{app, AppError, token_reuse, ok, err}
use go_finish_line_api.Auth.Token.{RefreshToken, is_used}
use go_finish_line_api.Auth.Library.{Library}
use go_finish_line_api.Auth.Repository
use go_finish_line_api.Auth.Repository.{revoke_row, revoke_sql, revoke_family}
use go_finish_line_api.Auth.Service.{Settings, punish, exchange, refresh}
use go_finish_line_api.Store.{World, call}

-- No token that passes the test is left that is not revoked.
abbrev pub AllRevoked : (RefreshToken → Bool) → List RefreshToken → Type 0
AllRevoked p ts = any (λ t. p t && not (is_some t.revoked_at)) ts ≡ false

abbrev pub in_family : ℕ → RefreshToken → Bool
in_family f t = t.family_id == f

pub revoke_rows :
    (p : RefreshToken → Bool) (now : Time) (ts : List RefreshToken)
    → ((t : RefreshToken) (r : Option Time) → p (record t { revoked_at = r }) ≡ p t)
    → AllRevoked p (map (revoke_row p now) ts)
revoke_rows p now [] same = refl
revoke_rows p now (t ∷ ts) same = elim (Bool-cases (p t)) [
  | inl hit ↦ elim (Bool-cases (is_some t.revoked_at)) [
    | inl old ↦ rw (hit, old) (rw old (rw hit (revoke_rows p now ts same)))
    | inr new ↦ rw (hit, new) (rw (same t (some now), hit) (revoke_rows p now ts same))
  ]
  | inr miss ↦ rw miss (rw miss (revoke_rows p now ts same))
]

pub revoke_family_alone :
    (f : ℕ) (w : World)
    → w.script ≡ []
    → ((revoke_family f w).0 ≡ ok tt)
      × AllRevoked (in_family f) (revoke_family f w).1.db.refresh_tokens
unfolding revoke_family revoke_sql call
revoke_family_alone f w h =
    rw h (refl, revoke_rows (in_family f) (w.clock w.ticks) w.db.refresh_tokens (λ t r. refl))

by_token_hash_alone :
    (hash : Text) (w : World) (rt : RefreshToken)
    → w.script ≡ []
    → find (λ t. text_eq t.token_hash hash) w.db.refresh_tokens ≡ some rt
    → Repository.by_token_hash hash w ≡ (ok rt, w)
unfolding Repository.by_token_hash call
by_token_hash_alone hash w rt h e = ground arith

-- A token that is stored is exchanged.
pub refresh_known :
    (lib : Library) (s : Settings) (raw : Text) (w : World) (rt : RefreshToken)
    → w.script ≡ []
    → find (λ t. text_eq t.token_hash (lib.sha256_hex raw)) w.db.refresh_tokens ≡ some rt
    → refresh lib s raw w ≡ exchange lib s rt w
unfolding refresh
refresh_known lib s raw w rt h e =
    let found = by_token_hash_alone (lib.sha256_hex raw) w rt h e in ground arith

-- Whatever else happens, a used token that is found is answered by revoking its family.
pub exchange_used :
    (lib : Library) (s : Settings) (rt : RefreshToken) (w : World)
    → is_used rt ≡ true
    → (revoke_family rt.family_id w).0 ≡ ok tt
    → exchange lib s rt w
      ≡ (err (app (AppError.auth token_reuse)), (revoke_family rt.family_id w).1)
unfolding exchange punish
exchange_used lib s rt w used gone = ground arith

-- With no other session at work, a token that has been rotated or revoked is refused as reused,
-- and then no token of its family is left that is not revoked, so the session of whoever used it
-- first ends too.
pub refresh_reused :
    (lib : Library) (s : Settings) (raw : Text) (w : World) (rt : RefreshToken)
    → w.script ≡ []
    → find (λ t. text_eq t.token_hash (lib.sha256_hex raw)) w.db.refresh_tokens ≡ some rt
    → is_used rt ≡ true
    → ((refresh lib s raw w).0 ≡ err (app (AppError.auth token_reuse)))
      × AllRevoked (in_family rt.family_id) (refresh lib s raw w).1.db.refresh_tokens
refresh_reused lib s raw w rt h e used =
    let gone = revoke_family_alone rt.family_id w h in
    subst
      (λ out.
        (out.0 ≡ err (app (AppError.auth token_reuse)))
        × AllRevoked (in_family rt.family_id) out.1.db.refresh_tokens)
      (sym (refresh_known lib s raw w rt h e ∙ exchange_used lib s rt w used gone.0)) (refl, gone.1)
