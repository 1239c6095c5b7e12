-- ===== src/Examples/Accounts.antt =====
-- The theorems on accounts, reports and discovery access at concrete rows.
use drawback_backend.Prelude.{
  IsDescending, String, true, none, some, ◌≡◌, refl, arith, find_one, count, str_eq, All, holds,
  update_where, Option, subst, ◌≤◌,
}
use drawback_backend.Schema.Enums.{ReportStatus, SubscriptionStatus, Platform}
use drawback_backend.Schema.Entities.{User, Subscription, Report}
use drawback_backend.World.{ok, err, unauthorized, ◌>>=◌}
use drawback_backend.Users.Queries.{find_by_id}
use drawback_backend.Users.Profile.{has_rewarded_discovery_access}
use drawback_backend.Realtime.Connections.{JwtPayload, handle_connection, refuse_connection}
use drawback_backend.Auth.{
  find_by_email, issue_single_session_access_token, validate, login, reset_password, reset, failed,
  succeeded,
}
use drawback_backend.Auth.Sessions.{issue-refuses, LoginOutcome, login-LoginOutcome}
use drawback_backend.Auth.Tokens.{ResetOutcome, reset_password-ResetOutcome, reset_password_once}
use drawback_backend.Reports.{find_report_by_id, update_report_status, save_report, resolver_of}
use drawback_backend.Reports.Resolution.{
  HasResolver, ReportCall, after_call, after_call-HasResolver, update-keeps_resolver,
}
use drawback_backend.Reports.{list_reports, is_listed, ReportFilters}
use drawback_backend.Reports.Queries.{Meets, is_listed-Meets, list_reports-Meets}
use drawback_backend.Examples.{same_text, ada, tables, busy_world, ada_token, complaint}

abbrev sign : Option String → JwtPayload → String
sign o p = p.email

ada_by_id : find_by_id 1 tables ≡ some ada
unfolding find_by_id find_one
ada_by_id = refl

abbrev next_token : JwtPayload
next_token = record ada_token { session_version = 1 }

issue-refuses_example :
    let w' = (issue_single_session_access_token sign 1 busy_world).1 in
    (validate ada_token w' ≡ (err (unauthorized "Session expired. Please log in again."), w'))
    × (handle_connection 100 13 (some ada_token) "::1" "app" w'
        ≡ refuse_connection 13 "Session expired. Please log in again." w')
issue-refuses_example =
    issue-refuses sign busy_world ada ada_token ada_by_id refl refl refl refl 100 13 "::1" "app"

ada_by_email : find_by_email same_text "ada@example.org" tables ≡ some ada
unfolding find_by_email find_one
ada_by_email = refl

same_row :
    (u : User)
    → find_by_email same_text "ada@example.org" tables ≡ some u
    → find_by_id u.id tables ≡ some u
same_row u h =
    let same : ada ≡ u = ground (arith, ada_by_email) in
    subst (λ x. find_by_id x.id tables ≡ some x) same ada_by_id

login-LoginOutcome_example :
    let r = login same_text str_eq sign "ada@example.org" "secret" none busy_world in
    LoginOutcome same_text str_eq sign "ada@example.org" "secret" none busy_world r.0 r.1
login-LoginOutcome_example =
    login-LoginOutcome same_text str_eq sign "ada@example.org" "secret" none busy_world same_row

reset_password-ResetOutcome_example :
    let r = reset_password same_text 100 9 "changed" busy_world in
    ResetOutcome busy_world 100 9 "changed" r.0 r.1
reset_password-ResetOutcome_example =
    reset_password-ResetOutcome same_text 100 9 "changed" busy_world

one_has_token : count (λ u. holds u.reset_token 9) tables.users ≤ 1
unfolding count
one_has_token = omega arith

ada_resets :
    (reset_password same_text 100 9 "changed" busy_world).0 ≡ ok (succeeded "ada@example.org" none)
unfolding reset_password reset find_one ◌>>=◌
ada_resets = refl

reset_password_once_example :
    let w' = (reset_password same_text 100 9 "changed" busy_world).1 in
    reset_password same_text 200 9 "again" w'
    ≡ (ok (failed none "Invalid or expired reset token"), w')
reset_password_once_example =
    reset_password_once same_text 100 9 "changed" busy_world (succeeded "ada@example.org" none)
      one_has_token ada_resets refl 200 "again"

abbrev rewarded : User
rewarded = record ada { temporary_discovery_access_expires_at = some 500 }

rewarded_at_400 : has_rewarded_discovery_access rewarded 400 ≡ true
unfolding has_rewarded_discovery_access
rewarded_at_400 = refl

abbrev held : Subscription
held = record {
  id = 1;
  user_id = 1;
  platform = Platform.android;
  tier = "monthly";
  status = SubscriptionStatus.grace_period;
  start_date = 0;
  end_date = 9000;
  auto_renew = true;
  original_transaction_id = none;
  purchase_token = "token";
}

abbrev dismisses : ReportCall
dismisses = ReportCall.updates 50 1 3 ReportStatus.dismissed none

after_call-HasResolver_example : All HasResolver (after_call dismisses busy_world).db.reports
after_call-HasResolver_example =
    after_call-HasResolver dismisses busy_world (HasResolver.closed 1 10 refl refl, tt)

complaint_is_there : find_report_by_id 1 tables ≡ some complaint
unfolding find_report_by_id find_one
complaint_is_there = refl

abbrev reopened : Report
reopened = record complaint { status = ReportStatus.under_review }

reopened_row :
    find_report_by_id 1 (update_report_status 50 1 3 ReportStatus.under_review none busy_world).1.db
    ≡ some reopened
unfolding update_report_status find_report_by_id find_by_id find_one save_report update_where ◌>>=◌
reopened_row = refl

ada_resolved : resolver_of complaint tables ≡ some ada
unfolding find_by_id find_one
ada_resolved = refl

update-keeps_resolver_example :
    ((update_report_status 50 1 3 ReportStatus.under_review none busy_world).0
      ≡ ok (record {
        report = record complaint {
          status = ReportStatus.under_review;
          resolved_by = none;
          resolved_at = none;
        };
        resolver = some ada;
      }))
    × (reopened.resolved_by ≡ some 1)
    × (reopened.resolved_at ≡ some 10)
update-keeps_resolver_example =
    update-keeps_resolver 50 3 ReportStatus.under_review none busy_world complaint reopened ada
      complaint_is_there ada_resolved reopened_row

abbrev all_resolved : ReportFilters
all_resolved = record {
  status = some ReportStatus.resolved;
  report_type = none;
  reported_user = none;
  reporter = none;
}

list_reports-Meets_example :
    let rs = list_reports all_resolved none (some 1) tables in
    let q = is_listed all_resolved none (some 1) in
    All (Meets all_resolved none (some 1)) rs
    × (count q rs ≡ count q tables.reports)
    × IsDescending (λ r. r.created_at) rs
list_reports-Meets_example =
    list_reports-Meets all_resolved none (some 1) tables (is_listed all_resolved none (some 1))
      (is_listed-Meets all_resolved none (some 1))
