-- ===== src/Reports.antt =====
-- reports/reports.service.ts: reports of users by users, and the admins' work on them. A filter that
-- is not set, or an empty text, is `none`. TypeORM's `save` writes the fields that are defined, so that
-- one set to `undefined` keeps its value in the table, and where the relation of a column is loaded the
-- column is written from the relation.
pub mod Resolution
pub mod Queries
use drawback_backend.Prelude.{
  ℕ, String, Bool, true, false, List, [], ◌∷◌, ◌++◌, Option, none, some, ◌==◌, ◌&&◌, ◌||◌,
  if◌then◌else◌, select, remove_where, update_where, find_one, any, count, sort_desc, str_eq,
  bind_option,
}
use drawback_backend.Schema.{Database}
use drawback_backend.Schema.Enums.{ReportStatus, ReportType}
use drawback_backend.Schema.Entities.{User, Report}
use drawback_backend.World.{
  Exec, return, gets, modify_db, ◌>>=◌, ◌>>◌, throw_if, or_throw, if_found, bad_request, not_found,
}
use drawback_backend.Users.Queries.{find_by_id}
use drawback_backend.Realtime.Rooms.{or_else}

-- dto/create-report.dto.ts
pub record CreateReport : Type 0 where
  pub reported_user_id : ℕ
  pub report_type : ReportType
  pub description : String
  pub chat_request_id : Option ℕ
  pub session_context : Option String

abbrev pub new_report : ℕ → ℕ → ℕ → CreateReport → Report
new_report id now reporter_id dto = record {
  id = id;
  reporter_id = reporter_id;
  reported_user_id = dto.reported_user_id;
  report_type = dto.report_type;
  description = dto.description;
  chat_request_id = dto.chat_request_id;
  session_context = dto.session_context;
  status = ReportStatus.pending;
  admin_notes = none;
  resolved_by = none;
  resolved_at = none;
  created_at = now;
}

unfoldable pub insert_report : Report → Database → Database
insert_report r db = record db { reports = db.reports ++ r ∷ [] }

unfoldable pub create_report : ℕ → ℕ → ℕ → CreateReport → Exec Report
create_report id now reporter_id dto = do
  throw_if (reporter_id == dto.reported_user_id) (bad_request "You cannot report yourself")
  modify_db (insert_report (new_report id now reporter_id dto))
  return (new_report id now reporter_id dto)

abbrev pub has_status : ReportStatus → ReportStatus → Bool
has_status ReportStatus.pending ReportStatus.pending = true
has_status ReportStatus.under_review ReportStatus.under_review = true
has_status ReportStatus.resolved ReportStatus.resolved = true
has_status ReportStatus.dismissed ReportStatus.dismissed = true
has_status _ _ = false

abbrev pub has_type : ReportType → ReportType → Bool
has_type ReportType.inappropriate_content ReportType.inappropriate_content = true
has_type ReportType.harassment ReportType.harassment = true
has_type ReportType.csae ReportType.csae = true
has_type ReportType.spam ReportType.spam = true
has_type ReportType.impersonation ReportType.impersonation = true
has_type ReportType.other ReportType.other = true
has_type _ _ = false

-- dto/report-filters.dto.ts
pub record ReportFilters : Type 0 where
  pub status : Option ReportStatus
  pub report_type : Option ReportType
  pub reported_user : Option String
  pub reporter : Option String

-- `andWhere`, for a filter that is set.
abbrev pub if_set {ℓ} : {A : Type ℓ} → Option A → (A → Bool) → Bool
if_set none p = true
if_set (some a) p = p a

-- The user by a display name or an address.
unfoldable pub find_named : (String → String) → String → Database → Option User
find_named to_lower_case name db =
    find_one
      (λ u. str_eq u.display_name (to_lower_case name) || str_eq u.email (to_lower_case name))
      db.users

-- The user that a filter names: `none` where it names no one, `some none` where it is not set.
abbrev pub named : (String → String) → Option String → Database → Option (Option ℕ)
named to_lower_case none db = some none
named to_lower_case (some name) db = elim (find_named to_lower_case name db) [
  | none ↦ none
  | some u ↦ some (some u.id)
]

abbrev pub is_listed : ReportFilters → Option ℕ → Option ℕ → Report → Bool
is_listed filters reported reporter r =
    if_set filters.status (has_status r.status)
    && if_set filters.report_type (has_type r.report_type)
    && if_set reported (λ u. r.reported_user_id == u)
    && if_set reporter (λ u. r.reporter_id == u)

unfoldable pub list_reports : ReportFilters → Option ℕ → Option ℕ → Database → List Report
list_reports filters reported reporter db =
    sort_desc (λ r. r.created_at) (select (is_listed filters reported reporter) db.reports)

unfoldable pub find_all_reports : (String → String) → ReportFilters → Exec (List Report)
find_all_reports to_lower_case filters = do
  reported ← gets (λ w. named to_lower_case filters.reported_user w.db)
  if_found reported (return []) λ u. do
    reporter ← gets (λ w. named to_lower_case filters.reporter w.db)
    if_found reporter (return []) (λ v. gets (λ w. list_reports filters u v w.db))

unfoldable pub find_report_by_id : ℕ → Database → Option Report
find_report_by_id id db = find_one (λ r. r.id == id) db.reports

abbrev pub is_final : ReportStatus → Bool
is_final ReportStatus.resolved = true
is_final ReportStatus.dismissed = true
is_final _ = false

-- The entity after the assignments.
abbrev pub with_status : ℕ → ℕ → ReportStatus → Option String → Report → Report
with_status now admin_id status notes r = record r {
  status = status;
  admin_notes = or_else notes r.admin_notes;
  resolved_by = if is_final status then some admin_id else none;
  resolved_at = if is_final status then some now else none;
}

-- The relation `resolver` of a report.
abbrev pub resolver_of : Report → Database → Option User
resolver_of r db = bind_option r.resolved_by (λ id. find_by_id id db)

-- A report with its relation `resolver`, as it was loaded.
pub record LoadedReport : Type 0 where
  pub report : Report
  pub resolver : Option User

abbrev pub by_relation : Option User → Option ℕ → Option ℕ
by_relation none id = id
by_relation (some u) id = some u.id

-- What `save` makes of the stored row: the fields that are not defined keep their value, and a loaded
-- resolver stays.
abbrev pub merge_report : LoadedReport → Report → Report
merge_report l stored = record l.report {
  admin_notes = or_else l.report.admin_notes stored.admin_notes;
  resolved_by = by_relation l.resolver (or_else l.report.resolved_by stored.resolved_by);
  resolved_at = or_else l.report.resolved_at stored.resolved_at;
}

unfoldable pub save_report : LoadedReport → Database → Database
save_report l db = record db {
  reports = update_where (λ x. x.id == l.report.id) (merge_report l) db.reports;
}

abbrev pub loaded_with : ℕ → ℕ → ReportStatus → Option String → Report → Option User → LoadedReport
loaded_with now admin_id status notes r resolver = record {
  report = with_status now admin_id status notes r;
  resolver = resolver;
}

unfoldable pub update_report_status : ℕ → ℕ → ℕ → ReportStatus → Option String → Exec LoadedReport
update_report_status now report_id admin_id status notes = do
  found ← gets (λ w. find_report_by_id report_id w.db)
  report ← or_throw found (not_found "Report not found")
  resolver ← gets (λ w. resolver_of report w.db)
  modify_db (save_report (loaded_with now admin_id status notes report resolver))
  return (loaded_with now admin_id status notes report resolver)

unfoldable pub remove_report : ℕ → Database → Database
remove_report id db = record db { reports = remove_where (λ r. r.id == id) db.reports }

unfoldable pub delete_report : ℕ → Exec (Unit {0})
delete_report report_id = do
  found ← gets (λ w. find_report_by_id report_id w.db)
  report ← or_throw found (not_found "Report not found")
  modify_db (remove_report report.id)

pub record Stats : Type 0 where
  pub total : ℕ
  pub pending : ℕ
  pub under_review : ℕ
  pub resolved : ℕ
  pub dismissed : ℕ

abbrev count_status : ReportStatus → Database → ℕ
count_status status db = count (λ r. has_status status r.status) db.reports

unfoldable pub get_report_stats : Database → Stats
get_report_stats db = record {
  total = count (λ _. true) db.reports;
  pending = count_status ReportStatus.pending db;
  under_review = count_status ReportStatus.under_review db;
  resolved = count_status ReportStatus.resolved db;
  dismissed = count_status ReportStatus.dismissed db;
}
