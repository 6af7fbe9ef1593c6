-- ===== src/Guarantee/Dashboard.antt =====
-- The handlers of the dashboard keep what the service of the reports keeps.
use go_finish_line_api.Prelude.{Option-cases, inl, inr}
use go_finish_line_api.Text.{codes, Platform}
use go_finish_line_api.Httpx.Request.{Request, reply}
use go_finish_line_api.Auth.Library.{Library}
use go_finish_line_api.Report.Rest as ReportRest
use go_finish_line_api.Report.Ports.{ReportRepository}
use go_finish_line_api.Guarantee.Reports.{Reads}
use go_finish_line_api.Guarantee.Reports
use go_finish_line_api.Guarantee.{Guarantee, IsKept, Keeps, here}

module _ (G : Guarantee) (k : IsKept G) (repo : ReportRepository) (reads : Reads G repo) where
  pub registrations_timeline-Keeps :
      (lib : Library) (r : Request) → Keeps G (ReportRest.registrations_timeline lib repo r)
  unfolding ReportRest.registrations_timeline reply
  registrations_timeline-Keeps lib r w t = elim (Option-cases (ReportRest.optional_race_id lib r)) [
    | inl bad ↦ rw bad (here G k w t)
    | inr (id, read) ↦
        rw read
          (Reports.timeline-Keeps G k repo reads (ReportRest.lenient_int r (codes "days")) id w t)
  ]

  pub referral_sources-Keeps :
      (lib : Library) (r : Request) → Keeps G (ReportRest.referral_sources lib repo r)
  unfolding ReportRest.referral_sources reply
  referral_sources-Keeps lib r w t = elim (Option-cases (ReportRest.optional_race_id lib r)) [
    | inl bad ↦ rw bad (here G k w t)
    | inr (id, read) ↦ rw read (Reports.referral_sources-Keeps G k repo reads id w t)
  ]

  pub shirt_sizes-Keeps :
      (lib : Library) (r : Request) → Keeps G (ReportRest.shirt_sizes lib repo r)
  unfolding ReportRest.shirt_sizes reply
  shirt_sizes-Keeps lib r w t = elim (Option-cases (ReportRest.optional_race_id lib r)) [
    | inl bad ↦ rw bad (here G k w t)
    | inr (id, read) ↦ rw read (Reports.shirt_sizes-Keeps G k repo reads id w t)
  ]

  pub participants-Keeps :
      (pf : Platform) (lib : Library) (r : Request)
      → Keeps G (ReportRest.participants pf lib repo r)
  unfolding ReportRest.participants reply
  participants-Keeps pf lib r w t = elim (Option-cases (ReportRest.optional_race_id lib r)) [
    | inl bad ↦ rw bad (here G k w t)
    | inr (id, read) ↦ elim (Option-cases (ReportRest.optional_int r (codes "age_min"))) [
      | inl bad ↦ rw (read, bad) (here G k w t)
      | inr (low, from) ↦ elim (Option-cases (ReportRest.optional_int r (codes "age_max"))) [
        | inl bad ↦ rw (read, from, bad) (here G k w t)
        | inr (high, to) ↦
            rw (read, from, to)
              (Reports.participants-Keeps G k repo reads pf (ReportRest.asked_filter r id low high)
                w t)
      ]
    ]
  ]
