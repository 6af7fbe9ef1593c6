-- ===== src/Report/Rest.antt =====
-- internal/report/adapters/rest: the widgets of the panel and the participants report.
pub mod Numbers
use go_finish_line_api.Prelude.{ℕ, Option, none, some, List, [], map, ℤ, if◌then◌else◌}
use go_finish_line_api.Text.{Text, codes, is_empty, Platform}
use go_finish_line_api.Text.Numeral.{Read, atoi}
use go_finish_line_api.Civil.Layout.{format_date}
use go_finish_line_api.Httpx.{json, Response, respond}
use go_finish_line_api.Httpx.Request.{Request, query_text, Handler, reply, or_bad_request}
use go_finish_line_api.Auth.Library.{Library}
use go_finish_line_api.Report.Filter.{ParticipantFilter, map_option}
use go_finish_line_api.Report.ReadModel.{
  TimelinePoint, ReferralCount, ShirtSizeCount, ParticipantRow, ParticipantPage,
}
use go_finish_line_api.Report.Ports.{ReportRepository}
use go_finish_line_api.Report.Service

pub record TimelinePointResponse : Type 0 where
  pub date : Text
  pub count : ℕ

unfoldable pub to_timeline : List TimelinePoint → List TimelinePointResponse
unfolding format_date
to_timeline points = map (λ p. record { date = format_date p.date; count = p.count }) points

pub record ReferralCountResponse : Type 0 where
  pub source : Text
  pub count : ℕ

unfoldable pub to_referral_counts : List ReferralCount → List ReferralCountResponse
to_referral_counts counts = map (λ c. record { source = c.source; count = c.count }) counts

pub record ShirtSizeCountResponse : Type 0 where
  pub size : Text
  pub count : ℕ

unfoldable pub to_shirt_size_counts : List ShirtSizeCount → List ShirtSizeCountResponse
to_shirt_size_counts counts = map (λ c. record { size = c.size; count = c.count }) counts

pub record ParticipantRowResponse : Type 0 where
  pub participant_id : ℕ
  pub first_names : Text
  pub last_names : Text
  pub email : Text
  pub phone : Text
  pub document_id : Text
  pub gender : Text
  pub birth_date : Text
  pub age : ℕ
  pub races_count : ℕ

pub record ParticipantPageResponse : Type 0 where
  pub items : List ParticipantRowResponse
  pub total : ℕ
  pub page : ℤ
  pub page_size : ℤ

abbrev to_row : ParticipantRow → ParticipantRowResponse
to_row row = record {
  participant_id = row.participant_id;
  first_names = row.first_names;
  last_names = row.last_names;
  email = row.email;
  phone = row.phone;
  document_id = row.document_id;
  gender = row.gender;
  birth_date = format_date row.birth_date;
  age = row.age;
  races_count = row.races_count;
}

unfoldable pub to_participant_page : ParticipantPage → ParticipantPageResponse
unfolding format_date
to_participant_page p = record {
  items = map to_row p.items;
  total = p.total;
  page = p.page;
  page_size = p.page_size;
}

-- `optionalRaceID`; the outer `none` is its error.
unfoldable pub optional_race_id : Library → Request → Option (Option ℕ)
unfolding query_text
optional_race_id lib r =
    let raw = query_text r (codes "race_id") in
    if is_empty raw then some none else map_option some (lib.parse_uuid raw)

-- `optionalInt`
unfoldable pub optional_int : Request → Text → Option (Option ℤ)
unfolding query_text atoi
optional_int r key =
    let raw = query_text r key in
    let parsed = atoi raw in
    if is_empty raw then some none else if parsed.fine then some (some parsed.result) else none

-- `n, _ := strconv.Atoi(c.Query(key))`
unfoldable pub lenient_int : Request → Text → ℤ
unfolding query_text atoi
lenient_int r key = (atoi (query_text r key)).result

unfoldable pub registrations_timeline :
    Library → ReportRepository → Request → Handler (List TimelinePointResponse)
unfolding optional_race_id lenient_int reply to_timeline
registrations_timeline lib repo r =
    or_bad_request "race_id must be a uuid" (optional_race_id lib r) λ race_id.
      reply (λ points. respond 200 (json (to_timeline points)))
        (Service.registrations_timeline repo (lenient_int r (codes "days")) race_id)

unfoldable pub referral_sources :
    Library → ReportRepository → Request → Handler (List ReferralCountResponse)
unfolding optional_race_id reply to_referral_counts
referral_sources lib repo r =
    or_bad_request "race_id must be a uuid" (optional_race_id lib r) λ race_id.
      reply (λ counts. respond 200 (json (to_referral_counts counts)))
        (Service.referral_sources repo race_id)

unfoldable pub shirt_sizes :
    Library → ReportRepository → Request → Handler (List ShirtSizeCountResponse)
unfolding optional_race_id reply to_shirt_size_counts
shirt_sizes lib repo r = or_bad_request "race_id must be a uuid" (optional_race_id lib r) λ race_id.
    reply (λ counts. respond 200 (json (to_shirt_size_counts counts)))
      (Service.shirt_sizes repo race_id)

abbrev pub asked_filter :
    Request → (race_id : Option ℕ) (age_min age_max : Option ℤ) → ParticipantFilter
asked_filter r race_id age_min age_max = record {
  search = query_text r (codes "search");
  race_id = race_id;
  gender = query_text r (codes "gender");
  age_min = age_min;
  age_max = age_max;
  page = lenient_int r (codes "page");
  page_size = lenient_int r (codes "page_size");
}

unfoldable pub participants :
    Platform → Library → ReportRepository → Request → Handler ParticipantPageResponse
unfolding optional_race_id optional_int lenient_int reply to_participant_page
participants pf lib repo r =
    or_bad_request "race_id must be a uuid" (optional_race_id lib r) λ race_id.
      or_bad_request "age_min must be a whole number" (optional_int r (codes "age_min")) λ age_min.
        or_bad_request "age_max must be a whole number" (optional_int r (codes "age_max"))
          λ age_max.
            reply (λ page. respond 200 (json (to_participant_page page)))
              (Service.participants repo pf (asked_filter r race_id age_min age_max))
