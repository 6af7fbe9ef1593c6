-- ===== src/Report/Filter/Pages.antt =====
-- Normalisation: what it refuses, the pages and sizes that leave it, and the offset of a page.
use go_finish_line_api.Prelude.{
  ℕ, ◌-◌, ◌*◌, ◌^◌, ◌≤◌, ◌<◌, ◌≡◌, ◌↔◌, Option, none, some, ℤ, pos, ◌-ℤ◌, ◌*ℤ◌, ◌≤ℤ◌, wrap_int64,
  arith,
}
use go_finish_line_api.Text.{Platform}
use go_finish_line_api.Apperr.{ok, err, app, report, age_range_invalid}
use go_finish_line_api.Report.Filter.{
  ParticipantFilter, normalize, check_ages, clamp_page, clamp, page_offset,
}

abbrev pub IsAge : Option ℤ → Type 0
IsAge none = Unit {0}
IsAge (some a) = pos 0 ≤ℤ a

abbrev pub InOrder : Option ℤ → Option ℤ → Type 0
InOrder (some lo) (some hi) = lo ≤ℤ hi
InOrder (some lo) none = Unit {0}
InOrder none hi = Unit {0}

-- The age range is accepted exactly when neither bound is negative and they are in order; any other
-- is refused by one error.
pub check_ages_iff :
    (lo hi : Option ℤ)
    → ((check_ages lo hi ≡ ok tt) ↔ (IsAge lo × IsAge hi × InOrder lo hi))
      × ((check_ages lo hi ≡ err (app (report age_range_invalid)))
          ↔ ¬ (IsAge lo × IsAge hi × InOrder lo hi))
unfolding check_ages
check_ages_iff none none = (ground arith, ground arith)
check_ages_iff none (some hi) = (ground arith, ground arith)
check_ages_iff (some lo) none = (ground arith, ground arith)
check_ages_iff (some lo) (some hi) = (ground arith, ground arith)

-- A normalised filter asks for a page from 1 on, for 1 to 100 rows, and for ages that are in order
-- and not negative; normalising keeps the ages and the race.
pub normalize-bounds :
    (pf : Platform) (f g : ParticipantFilter)
    → normalize pf f ≡ ok g
    → (pos 1 ≤ℤ g.page)
      × (pos 1 ≤ℤ g.page_size)
      × (g.page_size ≤ℤ pos 100)
      × (IsAge g.age_min × IsAge g.age_max × InOrder g.age_min g.age_max)
      × (g.age_min ≡ f.age_min)
      × (g.age_max ≡ f.age_max)
      × (g.race_id ≡ f.race_id)
unfolding normalize clamp_page clamp
normalize-bounds pf f g h = let ages = check_ages_iff f.age_min f.age_max in ground (arith, ages)

-- For a page from 1 on and below 2^63, if fewer than 2^63 rows are on the pages before it, then the
-- offset is their number.
pub page_offset_exact :
    (page size : ℕ)
    → 1 ≤ page
    → page < 2 ^ 63
    → (page - 1) * size < 2 ^ 63
    → page_offset (pos page) (pos size) ≡ pos ((page - 1) * size)
unfolding page_offset wrap_int64 ◌-ℤ◌ ◌*ℤ◌
page_offset_exact page size from_one page_fits offset_fits = ground arith
