-- ===== src/Guarantee/Tokens.antt =====
-- Refresh tokens only age: a request may add some, but what was issued stays, a token that was used
-- stays used, and the time of a revocation stays as it was written.
use go_finish_line_api.Prelude.{
  ℕ, ◌≡◌, refl, ◌∙◌, Bool, true, not, ◌&&◌, ◌||◌, some, is_some, List, [], ◌∷◌, ◌++◌, map, any,
  ◌==◌, Bool-cases, inl, inr, arith,
}
use go_finish_line_api.Text.{text_eq}
use go_finish_line_api.Civil.{Time}
use go_finish_line_api.Race.Repository as RaceRows
use go_finish_line_api.User.Repository as UserRows
use go_finish_line_api.Participant.Repository as Rows
use go_finish_line_api.Auth.Token.{RefreshToken}
use go_finish_line_api.Auth.Repository.{insert_sql, rotate_sql, rotate_row, revoke_sql, revoke_row}
use go_finish_line_api.Guarantee.Elsewhere.{
  upsert_sql-SameEvents, insert_user-SameEvents, update_password_sql-SameEvents, upsert_race_lem,
  delete_race_lem, insert_sql-refresh_tokens, update_sql-refresh_tokens,
}
use go_finish_line_api.Guarantee.{keeping, IsKept, Enters}
use go_finish_line_api.Store.{Db}

-- One token, at a later time.
pub record IsLater (old new : RefreshToken) : Type 0 where
  pub id : new.id ≡ old.id
  pub user : new.user_id ≡ old.user_id
  pub family : new.family_id ≡ old.family_id
  pub hash : new.token_hash ≡ old.token_hash
  pub expiry : new.expires_at ≡ old.expires_at
  pub rotation : is_some old.rotated_at ≡ true → is_some new.rotated_at ≡ true
  pub revocation : (at : Time) → old.revoked_at ≡ some at → new.revoked_at ≡ some at

-- The table, at a later time: new rows stand at its end.
abbrev pub Later : List RefreshToken → List RefreshToken → Type 0
Later [] new = Unit {0}
Later (t ∷ old) [] = ⊥
Later (t ∷ old) (u ∷ new) = IsLater t u × Later old new

abbrev pub Aged : Db → Db → Type 0
Aged a b = Later a.refresh_tokens b.refresh_tokens

IsLater-same : (t : RefreshToken) → IsLater t t
IsLater-same t = record {
  id = refl;
  user = refl;
  family = refl;
  hash = refl;
  expiry = refl;
  rotation = λ h. h;
  revocation = λ at h. h;
}

IsLater-trans : (a b c : RefreshToken) → IsLater a b → IsLater b c → IsLater a c
IsLater-trans a b c f g = record {
  id = g.id ∙ f.id;
  user = g.user ∙ f.user;
  family = g.family ∙ f.family;
  hash = g.hash ∙ f.hash;
  expiry = g.expiry ∙ f.expiry;
  rotation = λ h. g.rotation (f.rotation h);
  revocation = λ at h. g.revocation at (f.revocation at h);
}

Later-map :
    (f : RefreshToken → RefreshToken) (h : (t : RefreshToken) → IsLater t (f t))
    (ts : List RefreshToken)
    → Later ts (map f ts)
Later-map f h [] = tt
Later-map f h (t ∷ ts) = (h t, Later-map f h ts)

Later-append : (ts new : List RefreshToken) → Later ts (ts ++ new)
Later-append [] new = tt
Later-append (t ∷ ts) new = (IsLater-same t, Later-append ts new)

Later-same : (ts : List RefreshToken) → Later ts ts
Later-same [] = tt
Later-same (t ∷ ts) = (IsLater-same t, Later-same ts)

Later-trans : (a b c : List RefreshToken) → Later a b → Later b c → Later a c
Later-trans [] b c f g = tt
Later-trans (x ∷ a) [] c f g = absurd f
Later-trans (x ∷ a) (y ∷ b) [] f g = absurd g
Later-trans (x ∷ a) (y ∷ b) (z ∷ c) f g = (IsLater-trans x y z f.0 g.0, Later-trans a b c f.1 g.1)

rotate_row-IsLater : (id : ℕ) (at : Time) (t : RefreshToken) → IsLater t (rotate_row id at t)
rotate_row-IsLater id at t = elim (Bool-cases (t.id == id)) [
  | inl same ↦ rw same (record {
    id = refl;
    user = refl;
    family = refl;
    hash = refl;
    expiry = refl;
    rotation = λ h. refl;
    revocation = λ was h. h;
  })
  | inr other ↦ rw other (IsLater-same t)
]

unrevoked :
    (p : RefreshToken → Bool) (t : RefreshToken) (was : Time)
    → (p t && not (is_some t.revoked_at)) ≡ true
    → t.revoked_at ≡ some was
    → ⊥
unrevoked p t was hit h = ground arith

revoke_row-IsLater :
    (p : RefreshToken → Bool) (at : Time) (t : RefreshToken) → IsLater t (revoke_row p at t)
revoke_row-IsLater p at t = elim (Bool-cases (p t && not (is_some t.revoked_at))) [
  | inl hit ↦ rw hit (record {
    id = refl;
    user = refl;
    family = refl;
    hash = refl;
    expiry = refl;
    rotation = λ h. h;
    revocation = λ was h. absurd (unrevoked p t was hit h);
  })
  | inr miss ↦ rw miss (IsLater-same t)
]

token-Aged : (t : RefreshToken) (db : Db) → Aged db (insert_sql t db).1
unfolding insert_sql
token-Aged t db =
    elim (Bool-cases
      (any (λ old. old.id == t.id || text_eq old.token_hash t.token_hash) db.refresh_tokens)) [
        | inl clash ↦ rw clash (Later-same db.refresh_tokens)
        | inr free ↦ rw free (elim (Bool-cases (any (λ u. u.id == t.user_id) db.users)) [
          | inl known ↦ rw known (Later-append db.refresh_tokens (t ∷ []))
          | inr unknown ↦ rw unknown (Later-same db.refresh_tokens)
        ])
      ]

-- A statement on another table.
Aged-elsewhere : (a b : Db) → b.refresh_tokens ≡ a.refresh_tokens → Aged a b
Aged-elsewhere a b h = rw h (Later-same a.refresh_tokens)

pub Aged-IsKept : IsKept (keeping Aged)
unfolding rotate_sql revoke_sql
Aged-IsKept = record {
  same = λ db. Later-same db.refresh_tokens;
  through = λ a b c. Later-trans a.refresh_tokens b.refresh_tokens c.refresh_tokens;
  person =
      λ pf p db. Aged-elsewhere db (Rows.upsert_sql pf p db).1 (upsert_sql-SameEvents pf p db).2;
  others = λ i db t. t db;
  race = λ r db admitted. Aged-elsewhere db (RaceRows.upsert_sql r db).1 (upsert_race_lem r db).1;
  race_gone =
      λ slug db. Aged-elsewhere db (RaceRows.delete_sql slug db).1 (delete_race_lem slug db).1;
  account = λ pf u db.
      Aged-elsewhere db (UserRows.insert_sql pf u db).1 (insert_user-SameEvents pf u db).2;
  password = λ id hash db.
      Aged-elsewhere db (UserRows.update_password_sql id hash db).1
        (update_password_sql-SameEvents id hash db).2;
  token = token-Aged;
  rotated = λ id at db. Later-map (rotate_row id at) (rotate_row-IsLater id at) db.refresh_tokens;
  revoked = λ p at db. Later-map (revoke_row p at) (revoke_row-IsLater p at) db.refresh_tokens;
}

pub Aged-Enters : Enters (keeping Aged)
unfolding Rows.delete_sql
Aged-Enters = record {
  entered =
      λ r db good. Aged-elsewhere db (Rows.insert_sql r db).1 (insert_sql-refresh_tokens r db);
  owned = λ capacity id. record {
    withdrawn = λ db. Later-same db.refresh_tokens;
    confirmed = λ r db mine low good.
        Aged-elsewhere db (Rows.update_sql r db).1 (update_sql-refresh_tokens r db);
  };
}
