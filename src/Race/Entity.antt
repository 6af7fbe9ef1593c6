-- ===== src/Race/Entity.antt =====
-- internal/race/domain/race.go: a race and its validated construction.
use go_finish_line_api.Prelude.{ℕ, ℤ, pos, leb_ℤ, if◌then◌else◌}
use go_finish_line_api.Text.{Text, is_empty, trim_space}
use go_finish_line_api.Civil.{Time}
use go_finish_line_api.Apperr.{
  RaceError, document_id_required, capacity_invalid, AppError, app, Result, ok, err,
}

pub record Race : Type 0 where
  pub id : ℕ
  pub document_id : Text
  pub name : Text
  pub date : Time
  pub capacity : ℤ
  pub created_at : Time
  pub updated_at : Time

abbrev pub fail {ℓ} : {A : Type ℓ} → RaceError → Result A
fail e = err (app (AppError.race e))

-- `New`, with the drawn id and the time as arguments
unfoldable pub new_race :
    (id : ℕ) (now : Time) (document_id name : Text) (date : Time) (capacity : ℤ) → Result Race
new_race id now document_id name date capacity =
    let slug = trim_space document_id in
    let title = trim_space name in
    if is_empty slug
    then fail document_id_required
    else if is_empty title
    then fail RaceError.name_required
    else if leb_ℤ capacity (pos 0)
    then fail capacity_invalid
    else ok (record {
      id = id;
      document_id = slug;
      name = title;
      date = date;
      capacity = capacity;
      created_at = now;
      updated_at = now;
    })
