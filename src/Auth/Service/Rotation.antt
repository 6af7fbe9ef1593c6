-- ===== src/Auth/Service/Rotation.antt =====
-- A refresh token is good for one exchange.
use go_finish_line_api.Prelude.{
  ℕ, ◌≡◌, refl, subst, sym, ◌∙◌, Bool, true, false, Option, some, List, [], ◌∷◌, ◌++◌, map, find,
  ◌==◌, arith, Bool-cases, inl, inr, ◌+◌,
}
use go_finish_line_api.Text.{Text, text_eq}
use go_finish_line_api.Civil.{Time}
use go_finish_line_api.Apperr.{Err, app, AppError, token_reuse, Result, ok, err, wrap}
use go_finish_line_api.Auth.Token.{RefreshToken, is_used}
use go_finish_line_api.Auth.Library.{Library}
use go_finish_line_api.Auth.Jwt.{issue}
use go_finish_line_api.Auth.Repository.{rotate_row, insert_sql, mark_rotated, create, rotate_sql}
use go_finish_line_api.Auth.Service.{
  Settings, TokenPair, exchange, rotate, punish, refresh, issue_token_pair, generate_token,
  new_token, store_token,
}
use go_finish_line_api.Auth.Service.Reuse.{
  exchange_used, revoke_family_alone, refresh_known, refresh_reused, AllRevoked, in_family,
}
use go_finish_line_api.Store.{World, Action, call, on_err, ◌>>=◌, time_now, new_uuid}

abbrev pub stored : Text → World → Option RefreshToken
stored hash w = find (λ t. text_eq t.token_hash hash) w.db.refresh_tokens

find-append :
    {A : Type 0} (p : A → Bool) (xs ys : List A) (x : A)
    → find p xs ≡ some x
    → find p (xs ++ ys) ≡ some x
find-append p [] ys x h = absurd (ground arith)
find-append p (y ∷ xs) ys x h = ground (arith, find-append p xs ys x)

find-rotated :
    (hash : Text) (id : ℕ) (now : Time) (ts : List RefreshToken) (rt : RefreshToken)
    → find (λ t. text_eq t.token_hash hash) ts ≡ some rt
    → find (λ t. text_eq t.token_hash hash) (map (rotate_row id now) ts)
      ≡ some (rotate_row id now rt)
find-rotated hash id now [] rt h = absurd (ground arith)
find-rotated hash id now (t ∷ ts) rt h = elim (Bool-cases (t.id == id)) [
  | inl same ↦ rw same (ground (arith, find-rotated hash id now ts rt))
  | inr other ↦ rw other (ground (arith, find-rotated hash id now ts rt))
]

-- An action that runs no statement, or only adds tokens, and leaves the script at its end.
abbrev Adds : {A : Type 0} → Action A → Type 0
Adds m =
    (hash : Text) (t : RefreshToken) (w : World)
    → w.script ≡ []
    → stored hash w ≡ some t
    → ((m w).1.script ≡ []) × (stored hash (m w).1 ≡ some t)

Adds-after :
    {A B : Type 0} (f : A → Action B) (r : Result A) (v : World) (hash : Text) (t : RefreshToken)
    → ((a : A) → Adds (f a))
    → v.script ≡ []
    → stored hash v ≡ some t
    → ((◌>>=◌ (λ _. (r, v)) f v).1.script ≡ []) × (stored hash (◌>>=◌ (λ _. (r, v)) f v).1 ≡ some t)
Adds-after f (ok a) v hash t hf s e = hf a hash t v s e
Adds-after f (err x) v hash t hf s e = (s, e)

Adds-bind :
    {A B : Type 0} (m : Action A) (f : A → Action B)
    → Adds m
    → ((a : A) → Adds (f a))
    → Adds (m >>= f)
Adds-bind m f hm hf hash t w s e =
    let (s', e') = hm hash t w s e in Adds-after f (m w).0 (m w).1 hash t hf s' e'

Adds-on_err : {A : Type 0} (g : Err → Err) (m : Action A) → Adds m → Adds (on_err g m)
Adds-on_err g m h hash t w s e = ground (arith, h hash t w s e)

create-Adds : (new : RefreshToken) → Adds (create new)
unfolding create insert_sql call
create-Adds new hash t w s e =
    ground (arith, find-append (λ q. text_eq q.token_hash hash) w.db.refresh_tokens (new ∷ []) t e)

store_token-Adds :
    (lib : Library) (s : Settings) (user_id family_id : ℕ) (access : Text × Time) (raw : Text)
    → Adds (store_token lib s user_id family_id access raw)
unfolding store_token
store_token-Adds lib s user_id family_id access raw hash t w h e =
    let new = new_token lib s (w.ids w.drawn) user_id family_id raw (w.clock w.ticks) in
    ground (
      arith,
      Adds-on_err (wrap "storing refresh token") (create new) (create-Adds new) hash t
          (new_uuid (time_now w).1).1 h e,
    )

issue_token_pair-Adds :
    (lib : Library) (s : Settings) (user_id family_id : ℕ)
    → Adds (issue_token_pair lib s user_id family_id)
unfolding issue_token_pair issue generate_token
issue_token_pair-Adds lib s user_id family_id =
    let random = on_err (wrap "generating refresh token") (generate_token lib) in
    let store = store_token lib s user_id family_id in
    Adds-bind (on_err (wrap "issuing access token") (issue lib s.jwt user_id))
      (λ access. random >>= λ raw. store access raw)
      (Adds-on_err _ (issue lib s.jwt user_id) (λ hash t w h e. ground arith))
      λ access.
        Adds-bind random (λ raw. store access raw)
          (Adds-on_err _ (generate_token lib) (λ hash t w h e. (h, e)))
          λ raw. store_token-Adds lib s user_id family_id access raw

rotate-stored :
    (lib : Library) (s : Settings) (hash : Text) (rt : RefreshToken) (w : World)
    → w.script ≡ []
    → stored hash w ≡ some rt
    → ((rotate lib s rt w).1.script ≡ [])
      × (stored hash (rotate lib s rt w).1
          ≡ some (record rt { rotated_at = some (w.clock w.ticks) }))
unfolding rotate mark_rotated rotate_sql call
rotate-stored lib s hash rt w h e =
    let now = w.clock w.ticks in
    let same : rotate_row rt.id now rt ≡ record rt { rotated_at = some now } = ground arith in
    let v = record w {
      db = record w.db { refresh_tokens = map (rotate_row rt.id now) w.db.refresh_tokens };
      ticks = w.ticks + 1;
      script = [];
    } in
    let found : stored hash v ≡ some (record rt { rotated_at = some now }) =
      subst (λ q. stored hash v ≡ some q) same
        (find-rotated hash rt.id now w.db.refresh_tokens rt e) in
    let whole : rotate lib s rt w ≡ issue_token_pair lib s rt.user_id rt.family_id v =
      ground arith in
    subst
      (λ out.
        (out.1.script ≡ []) × (stored hash out.1 ≡ some (record rt { rotated_at = some now })))
      (sym whole) (issue_token_pair-Adds lib s rt.user_id rt.family_id hash _ v refl found)

is_used_rotated :
    (t : RefreshToken) (at : Time) → is_used (record t { rotated_at = some at }) ≡ true
unfolding is_used
is_used_rotated t at = refl

-- A token that was exchanged was not used, and not expired.
pub exchange_rotates :
    (lib : Library) (s : Settings) (rt : RefreshToken) (w w' : World) (pair : TokenPair)
    → w.script ≡ []
    → exchange lib s rt w ≡ (ok pair, w')
    → (is_used rt ≡ false) × (rotate lib s rt (record w { ticks = w.ticks + 1 }) ≡ (ok pair, w'))
unfolding exchange punish
exchange_rotates lib s rt w w' pair h done = elim (Bool-cases (is_used rt)) [
  | inl used ↦
      let gone = revoke_family_alone rt.family_id w h in
      absurd (ground (arith, exchange_used lib s rt w used gone.0))
  | inr fresh ↦ ground arith
]

-- With no other session at work, once a refresh token has been exchanged for a pair, presenting it
-- again is refused as reuse and leaves no token of its family that is not revoked, the one of
-- the new pair among them.
pub refresh_once :
    (lib : Library) (s : Settings) (raw : Text) (w w' : World) (rt : RefreshToken)
    (pair : TokenPair)
    → w.script ≡ []
    → stored (lib.sha256_hex raw) w ≡ some rt
    → refresh lib s raw w ≡ (ok pair, w')
    → ((refresh lib s raw w').0 ≡ err (app (AppError.auth token_reuse)))
      × AllRevoked (in_family rt.family_id) (refresh lib s raw w').1.db.refresh_tokens
refresh_once lib s raw w w' rt pair h e done =
    let now = record w { ticks = w.ticks + 1 } in
    let exchanged = sym (refresh_known lib s raw w rt h e) ∙ done in
    let (_, rotated) = exchange_rotates lib s rt w w' pair h exchanged in
    let (quiet, kept) = rotate-stored lib s (lib.sha256_hex raw) rt now h e in
    let quiet' : w'.script ≡ [] = subst (λ out. out.1.script ≡ []) rotated quiet in
    let used = record rt { rotated_at = some (w.clock (w.ticks + 1)) } in
    let kept' : stored (lib.sha256_hex raw) w' ≡ some used =
      subst (λ out. stored (lib.sha256_hex raw) out.1 ≡ some used) rotated kept in
    refresh_reused lib s raw w' used quiet' kept' (is_used_rotated rt (w.clock (w.ticks + 1)))
