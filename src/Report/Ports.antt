-- ===== src/Report/Ports.antt =====
-- internal/report/ports/ports.go: what the dashboard's service asks of a repository.
use go_finish_line_api.Prelude.{ℕ, Option, List}
use go_finish_line_api.Civil.{Date}
use go_finish_line_api.Report.Filter.{ParticipantQuery}
use go_finish_line_api.Report.ReadModel.{
  TimelinePoint, ReferralCount, ShirtSizeCount, ParticipantRow,
}
use go_finish_line_api.Store.{Action}

-- A race id that is not given stands for all races.
pub record ReportRepository : Type 0 where
  pub registrations_timeline : Option ℕ → (from to : Date) → Action (List TimelinePoint)
  pub referral_sources : Option ℕ → Action (List ReferralCount)
  pub shirt_sizes : Option ℕ → Action (List ShirtSizeCount)
  pub participants : ParticipantQuery → Action (List ParticipantRow × ℕ)
