-- ===== src/Guarantee/Reports.antt =====
-- The reports only read.
use go_finish_line_api.Prelude.{ℕ, length, Option, List, ℤ, map}
use go_finish_line_api.Text.{Platform}
use go_finish_line_api.Civil.{Date, Time}
use go_finish_line_api.Apperr.{wrap}
use go_finish_line_api.Report.Filter.{
  ParticipantFilter, ParticipantQuery, normalize, resolve, timeline_range,
}
use go_finish_line_api.Report.ReadModel.{
  ParticipantRow, ParticipantPage, fill_timeline, sort_shirt_sizes,
}
use go_finish_line_api.Report.Repository
use go_finish_line_api.Report.Repository.{Collation, filter_participants, report_repository}
use go_finish_line_api.Report.Ports.{ReportRepository}
use go_finish_line_api.Report.Service
use go_finish_line_api.Guarantee.{
  Guarantee, IsKept, Keeps, call-Kept, here, Keeps-bind, Keeps-lift, Keeps-on_err, time_now-Keeps,
}
use go_finish_line_api.Store.{Sql, row, Action, ◌>>=◌, pure, on_err, exec, time_now}

-- What the port promises: its operations only read, so they keep every guarantee.
pub record Reads (G : Guarantee) (repo : ReportRepository) : Type 0 where
  pub points :
      (race_id : Option ℕ) (from to : Date) → Keeps G (repo.registrations_timeline race_id from to)
  pub sources : (race_id : Option ℕ) → Keeps G (repo.referral_sources race_id)
  pub sizes : (race_id : Option ℕ) → Keeps G (repo.shirt_sizes race_id)
  pub page : (q : ParticipantQuery) → Keeps G (repo.participants q)

-- The adapter for PostgreSQL keeps the promise.
module _ (G : Guarantee) (k : IsKept G) where
  points-Keeps :
      (race_id : Option ℕ) (from to : Date)
      → Keeps G (Repository.registrations_timeline race_id from to)
  unfolding Repository.registrations_timeline Repository.timeline_sql
  points-Keeps race_id from to w s = call-Kept G k _ k.same w s

  sources-Keeps :
      (by : Collation) (race_id : Option ℕ) → Keeps G (Repository.referral_sources by race_id)
  unfolding Repository.referral_sources
  sources-Keeps by race_id w s = call-Kept G k _ k.same w s

  sizes-Keeps : (race_id : Option ℕ) → Keeps G (Repository.shirt_sizes race_id)
  unfolding Repository.shirt_sizes
  sizes-Keeps race_id w s = call-Kept G k _ k.same w s

  page_sql-Keeps :
      (by : Collation) (q : ParticipantQuery)
      → Keeps G (exec "selecting participants" (Repository.page_sql by q))
  unfolding Repository.page_sql
  page_sql-Keeps by q w s = call-Kept G k (Repository.page_sql by q) k.same w s

  page-Keeps : (by : Collation) (q : ParticipantQuery) → Keeps G (Repository.participants by q)
  unfolding Repository.participants
  page-Keeps by q =
      let counted : Sql ℕ = λ db. (row (length (filter_participants by q db)), db) in
      let rows = exec "selecting participants" (Repository.page_sql by q) in
      let pair : ℕ → List ParticipantRow → Action (List ParticipantRow × ℕ) =
        λ total found. pure (found, total) in
      Keeps-bind G k (exec "counting participants" counted) (λ total. rows >>= pair total)
        (λ w s. call-Kept G k counted k.same w s)
        λ total. Keeps-bind G k rows (pair total) (page_sql-Keeps by q) (λ found. here G k)

  pub report_repository-Reads : (by : Collation) → Reads G (report_repository by)
  report_repository-Reads by = record {
    points = points-Keeps;
    sources = sources-Keeps by;
    sizes = sizes-Keeps;
    page = page-Keeps by;
  }

-- The service keeps what its repository keeps.
module _ (G : Guarantee) (k : IsKept G) (repo : ReportRepository) (reads : Reads G repo) where
  pub timeline-Keeps :
      (days : ℤ) (race_id : Option ℕ) → Keeps G (Service.registrations_timeline repo days race_id)
  unfolding Service.registrations_timeline
  timeline-Keeps days race_id w s =
      let range = timeline_range days (w.clock w.ticks).date in
      let count = repo.registrations_timeline race_id range.0 range.1 in
      let rest =
        Keeps-bind G k (on_err (wrap "counting registrations per day") count)
          (λ found. pure (fill_timeline found range.0 range.1))
          (Keeps-on_err G k _ count (reads.points race_id range.0 range.1)) (λ found. here G k)
          (time_now w).1 s in
      record { kept = rest.kept; trusts = rest.trusts }

  pub referral_sources-Keeps :
      (race_id : Option ℕ) → Keeps G (Service.referral_sources repo race_id)
  unfolding Service.referral_sources
  referral_sources-Keeps race_id =
      Keeps-on_err G k _ (repo.referral_sources race_id) (reads.sources race_id)

  pub shirt_sizes-Keeps : (race_id : Option ℕ) → Keeps G (Service.shirt_sizes repo race_id)
  unfolding Service.shirt_sizes
  shirt_sizes-Keeps race_id =
      Keeps-bind G k (on_err (wrap "counting shirt sizes") (repo.shirt_sizes race_id))
        (λ counts. pure (sort_shirt_sizes counts))
        (Keeps-on_err G k _ (repo.shirt_sizes race_id) (reads.sizes race_id)) (λ counts. here G k)

  pub participants-Keeps :
      (pf : Platform) (filter : ParticipantFilter) → Keeps G (Service.participants repo pf filter)
  unfolding Service.participants
  participants-Keeps pf filter =
      let listed =
        λ (q : ParticipantQuery). on_err (wrap "listing participants") (repo.participants q) in
      let page = λ (f : ParticipantFilter) (now : Time) (found : List ParticipantRow × ℕ).
        pure {A = ParticipantPage} (record {
          items = map (Service.aged now.date) found.0;
          total = found.1;
          page = f.page;
          page_size = f.page_size;
        }) in
      let answer =
        λ (f : ParticipantFilter) (now : Time). listed (resolve now.date f) >>= page f now in
      Keeps-lift G k (normalize pf filter) (λ f. time_now >>= answer f)
        λ f _. Keeps-bind G k time_now (answer f) (time_now-Keeps G k) λ now.
          Keeps-bind G k (listed (resolve now.date f)) (page f now)
            (Keeps-on_err G k _ (repo.participants (resolve now.date f))
              (reads.page (resolve now.date f)))
            (λ found. here G k)
