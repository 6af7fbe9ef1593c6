-- ===== src/Schema/Migrations/Catalogs.antt =====
-- What the migrations leave in a catalog: its tables and foreign keys, each once.
use go_finish_line_api.Prelude.{
  ◌≡◌, refl, Bool, true, some, List, [], ◌∷◌, ◌++◌, any, Bool-cases, inl, inr, arith, if◌then◌else◌,
  All,
}
use go_finish_line_api.Text.{Text, codes, text_eq}
use go_finish_line_api.Text.Laws.{text_eq_refl}
use go_finish_line_api.Schema.{
  Table, users, refresh_tokens, races, participants, registrations, table_name,
}
use go_finish_line_api.Schema.Migrations.{
  ForeignKey, Catalog, has_table, has_key, add_key, fk_refresh_tokens_user,
  fk_registrations_participant, fk_registrations_race,
}

-- What is there stays, and what is missing comes last.
abbrev pub create : Table → List Table → List Table
create t tables = if has_table t tables then tables else tables ++ t ∷ []

abbrev pub create_missing : List Table → List Table → List Table
create_missing [] tables = tables
create_missing (t ∷ ts) tables = create_missing ts (create t tables)

abbrev pub with_key : ForeignKey → List ForeignKey → List ForeignKey
with_key k keys = if has_key k.name keys then keys else keys ++ k ∷ []

abbrev pub with_extension : Text → List Text → List Text
with_extension e es = if any (λ x. text_eq x e) es then es else es ++ e ∷ []

-- The schema that the modules share.
abbrev pub all_tables : List Table
all_tables = users ∷ refresh_tokens ∷ races ∷ participants ∷ registrations ∷ []

abbrev pub migrated : Catalog → Catalog
migrated c = record {
  extensions = with_extension (codes "citext") c.extensions;
  tables = create_missing all_tables c.tables;
  keys =
      with_key fk_registrations_race
        (with_key fk_registrations_participant (with_key fk_refresh_tokens_user c.keys));
}

module _ {ℓ} {A : Type ℓ} (p : A → Bool) (x : A) where
  any-append : (xs : List A) → p x ≡ true → any p (xs ++ x ∷ []) ≡ true
  any-append [] h = ground arith
  any-append (y ∷ xs) h = ground (arith, any-append xs h)

  any-more : (xs : List A) → any p xs ≡ true → any p (xs ++ x ∷ []) ≡ true
  any-more [] h = ground arith
  any-more (y ∷ xs) h = ground (arith, any-more xs)

pub has_table-create : (t : Table) (tables : List Table) → has_table t (create t tables) ≡ true
has_table-create t tables = elim (Bool-cases (has_table t tables)) [
  | inl there ↦ rw there there
  | inr missing ↦ rw missing (
      any-append (λ u. text_eq (table_name u) (table_name t)) t tables
        (text_eq_refl (table_name t)))
]

pub create-keeps :
    (s t : Table) (tables : List Table)
    → has_table s tables ≡ true
    → has_table s (create t tables) ≡ true
create-keeps s t tables h = elim (Bool-cases (has_table t tables)) [
  | inl there ↦ rw there h
  | inr missing ↦ rw missing (any-more (λ u. text_eq (table_name u) (table_name s)) t tables h)
]

pub add_key-with_key :
    (k : ForeignKey) (c : Catalog)
    → has_table k.table c.tables ≡ true
    → has_table k.references c.tables ≡ true
    → add_key k c ≡ some (record c { keys = with_key k c.keys })
unfolding add_key
add_key-with_key k c here there = elim (Bool-cases (has_key k.name c.keys)) [
  | inl known ↦ rw known refl
  | inr new ↦ rw (new, here, there) refl
]

pub has_extension-with_extension :
    (e : Text) (es : List Text) → any (λ x. text_eq x e) (with_extension e es) ≡ true
has_extension-with_extension e es = elim (Bool-cases (any (λ x. text_eq x e) es)) [
  | inl there ↦ rw there there
  | inr missing ↦ rw missing (any-append (λ x. text_eq x e) e es (text_eq_refl e))
]

pub create_missing-has_table :
    (t : Table) (ts tables : List Table)
    → has_table t tables ≡ true
    → has_table t (create_missing ts tables) ≡ true
create_missing-has_table t [] tables h = h
create_missing-has_table t (s ∷ ts) tables h =
    create_missing-has_table t ts (create s tables) (create-keeps t s tables h)

pub has_table-create_missing :
    (t : Table) (tables : List Table) → has_table t (create_missing all_tables tables) ≡ true
has_table-create_missing users tables =
    create_missing-has_table users (refresh_tokens ∷ races ∷ participants ∷ registrations ∷ [])
      (create users tables) (has_table-create users tables)
has_table-create_missing refresh_tokens tables =
    let before = create users tables in
    create_missing-has_table refresh_tokens (races ∷ participants ∷ registrations ∷ [])
      (create refresh_tokens before) (has_table-create refresh_tokens before)
has_table-create_missing races tables =
    let before = create refresh_tokens (create users tables) in
    create_missing-has_table races (participants ∷ registrations ∷ []) (create races before)
      (has_table-create races before)
has_table-create_missing participants tables =
    let before = create races (create refresh_tokens (create users tables)) in
    create_missing-has_table participants (registrations ∷ []) (create participants before)
      (has_table-create participants before)
has_table-create_missing registrations tables =
    let before = create participants (create races (create refresh_tokens (create users tables))) in
    has_table-create registrations before

pub create_missing_done :
    (ts tables : List Table)
    → ((t : Table) → has_table t tables ≡ true)
    → create_missing ts tables ≡ tables
create_missing_done [] tables h = refl
create_missing_done (t ∷ ts) tables h = rw (h t) (create_missing_done ts tables h)

pub has_key-with_key :
    (k : ForeignKey) (keys : List ForeignKey) → has_key k.name (with_key k keys) ≡ true
has_key-with_key k keys = elim (Bool-cases (has_key k.name keys)) [
  | inl there ↦ rw there there
  | inr missing ↦ rw missing (any-append (λ q. text_eq q.name k.name) k keys (text_eq_refl k.name))
]

pub with_key-keeps :
    (name : Text) (k : ForeignKey) (keys : List ForeignKey)
    → has_key name keys ≡ true
    → has_key name (with_key k keys) ≡ true
with_key-keeps name k keys h = elim (Bool-cases (has_key k.name keys)) [
  | inl there ↦ rw there h
  | inr missing ↦ rw missing (any-more (λ q. text_eq q.name name) k keys h)
]

-- The foreign keys of the two migrations that declare some.
abbrev pub all_keys : List ForeignKey
all_keys = fk_refresh_tokens_user ∷ fk_registrations_participant ∷ fk_registrations_race ∷ []

pub migrated_keys : (c : Catalog) → All (λ k. has_key k.name (migrated c).keys ≡ true) all_keys
migrated_keys c =
    let k1 = with_key fk_refresh_tokens_user c.keys in
    let k2 = with_key fk_registrations_participant k1 in
    let first = with_key-keeps fk_refresh_tokens_user.name fk_registrations_race k2 (
      with_key-keeps fk_refresh_tokens_user.name fk_registrations_participant k1
        (has_key-with_key fk_refresh_tokens_user c.keys)) in
    let second =
      with_key-keeps fk_registrations_participant.name fk_registrations_race k2
        (has_key-with_key fk_registrations_participant k1) in
    (first, (second, (has_key-with_key fk_registrations_race k2, tt)))

pub migrated_done : (c : Catalog) → migrated (migrated c) ≡ migrated c
migrated_done c =
    let keys = migrated_keys c in
    rw
      (
        has_extension-with_extension (codes "citext") c.extensions,
        create_missing_done all_tables (create_missing all_tables c.tables)
            (λ t. has_table-create_missing t c.tables),
        keys.0,
        keys.1.0,
        keys.1.1.0,
      )
      refl
