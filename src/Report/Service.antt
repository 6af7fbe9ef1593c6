-- ===== src/Report/Service.antt =====
-- internal/report/service/service.go. The process reads "now" in UTC.
pub mod Window
pub mod Counts
use go_finish_line_api.Prelude.{ℕ, Option, List, map, ℤ}
use go_finish_line_api.Text.{Platform}
use go_finish_line_api.Civil.{Date}
use go_finish_line_api.Apperr.{wrap}
use go_finish_line_api.Report.Filter.{ParticipantFilter, normalize, resolve, timeline_range}
use go_finish_line_api.Report.ReadModel.{
  TimelinePoint, ReferralCount, ShirtSizeCount, ParticipantRow, ParticipantPage, age_at,
  fill_timeline, sort_shirt_sizes,
}
use go_finish_line_api.Report.Ports.{ReportRepository}
use go_finish_line_api.Store.{Action, ◌>>=◌, pure, lift, on_err, time_now}

abbrev pub aged : Date → ParticipantRow → ParticipantRow
aged today r = record r { age = age_at r.birth_date today }

-- `New`: the service on a repository.
module _ (repo : ReportRepository) where
  unfoldable pub registrations_timeline : (days : ℤ) → Option ℕ → Action (List TimelinePoint)
  unfolding fill_timeline timeline_range
  registrations_timeline days race_id = do
    now ← time_now
    let range = timeline_range days now.date
    found ←
        on_err (wrap "counting registrations per day")
          (repo.registrations_timeline race_id range.0 range.1)
    pure (fill_timeline found range.0 range.1)

  unfoldable pub referral_sources : Option ℕ → Action (List ReferralCount)
  referral_sources race_id =
      on_err (wrap "counting referral sources") (repo.referral_sources race_id)

  unfoldable pub shirt_sizes : Option ℕ → Action (List ShirtSizeCount)
  unfolding sort_shirt_sizes
  shirt_sizes race_id = do
    counts ← on_err (wrap "counting shirt sizes") (repo.shirt_sizes race_id)
    pure (sort_shirt_sizes counts)

  unfoldable pub participants : Platform → ParticipantFilter → Action ParticipantPage
  unfolding normalize resolve age_at
  participants pf filter = do
    normalized ← lift (normalize pf filter)
    now ← time_now
    found ← on_err (wrap "listing participants") (repo.participants (resolve now.date normalized))
    pure (record {
      items = map (aged now.date) found.0;
      total = found.1;
      page = normalized.page;
      page_size = normalized.page_size;
    })
