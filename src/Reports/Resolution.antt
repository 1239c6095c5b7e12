-- ===== src/Reports/Resolution.antt =====
-- Who has resolved a report.
use drawback_backend.Prelude.{
  ℕ, String, true, false, if◌then◌else◌, Option, none, some, ◌≡◌, refl, All, All-append,
  All-remove_where, All-update_where, Bool-cases, inl, inr, arith, sym, ◌∙◌, ==_refl,
  find_one-update_where,
}
use drawback_backend.Realtime.Rooms.{or_else}
use drawback_backend.Schema.{Database}
use drawback_backend.Schema.Entities.{Report, User}
use drawback_backend.Schema.Enums.{ReportStatus}
use drawback_backend.World.{World, Result, ok, ◌>>=◌}
use drawback_backend.World.Rules.{
  Ensures, Ensures-gets, Ensures-or_throw, Ensures-modify_db, Ensures-return, Ensures-throw_if,
  Ensures-modify_db_last,
}
use drawback_backend.Reports.{
  resolver_of, loaded_with, CreateReport, insert_report, create_report, find_report_by_id, is_final,
  merge_report, save_report, update_report_status, remove_report, delete_report,
}

-- A report that is resolved or dismissed names the admin and the time.
pub data HasResolver (r : Report) : Type 0 where
  unresolved : is_final r.status ≡ false → HasResolver r
  closed : (admin at : ℕ) → r.resolved_by ≡ some admin → r.resolved_at ≡ some at → HasResolver r

abbrev AllResolved : {A : Type 0} → Result A → World → Type 0
AllResolved r w = All HasResolver w.db.reports

merge-HasResolver :
    (now admin : ℕ) (s : ReportStatus) (notes : Option String) (r stored : Report)
    (resolver : Option User)
    → HasResolver (merge_report (loaded_with now admin s notes r resolver) stored)
merge-HasResolver now admin s notes r stored resolver = elim (Bool-cases (is_final s)) [
  | inr e ↦ HasResolver.unresolved e
  | inl e ↦ by_loaded resolver e
]
  where
    by_loaded :
        (resolver : Option User)
        → is_final s ≡ true
        → HasResolver (merge_report (loaded_with now admin s notes r resolver) stored)
    by_loaded none e = HasResolver.closed admin now (rw e refl) (rw e refl)
    by_loaded (some u) e = HasResolver.closed u.id now refl (rw e refl)

-- A call on the reports, with the time and the id that a new row gets.
pub data ReportCall : Type 0 where
  creates : ℕ → ℕ → ℕ → CreateReport → ReportCall
  updates : ℕ → ℕ → ℕ → ReportStatus → Option String → ReportCall
  deletes : ℕ → ReportCall

unfoldable pub after_call : ReportCall → World → World
after_call (ReportCall.creates id now reporter dto) w = (create_report id now reporter dto w).1
after_call (ReportCall.updates now id admin s notes) w =
    (update_report_status now id admin s notes w).1
after_call (ReportCall.deletes id) w = (delete_report id w).1

-- If every report that is resolved or dismissed names an admin and a time, then this still holds
-- after any call that creates, updates or deletes a report, whatever its outcome.
pub after_call-HasResolver :
    (c : ReportCall) (w : World)
    → All HasResolver w.db.reports
    → All HasResolver (after_call c w).db.reports
unfolding after_call create_report update_report_status delete_report insert_report save_report
    remove_report
after_call-HasResolver (ReportCall.creates id now reporter dto) w h =
    let run : Ensures AllResolved (create_report id now reporter dto) w =
      Ensures-throw_if _ _ _ (λ _. h)
        (λ _.
          Ensures-modify_db _ _
            (Ensures-return _ (All-append _ w.db.reports _ h (HasResolver.unresolved refl, tt)))) in
    run.at
after_call-HasResolver (ReportCall.updates now id admin s notes) w h =
    let run : Ensures AllResolved (update_report_status now id admin s notes) w = Ensures-gets _ _ (
      Ensures-or_throw _ _ _ (λ _. h)
        λ r e. Ensures-gets _ _ (
          Ensures-modify_db _ _ (
            Ensures-return _ (
              All-update_where _ _ _ w.db.reports
                (λ x _ _. merge-HasResolver now admin s notes r x (resolver_of r w.db)) h)))) in
    run.at
after_call-HasResolver (ReportCall.deletes id) w h =
    let run : Ensures AllResolved (delete_report id) w = Ensures-gets _ _ (
      Ensures-or_throw _ _ _ (λ _. h)
        λ r e. Ensures-modify_db_last _ (All-remove_where _ _ w.db.reports h)) in
    run.at

kept_time :
    (now : ℕ) (s : ReportStatus) (old : Option ℕ)
    → or_else (if is_final s then some now else none) old ≡ (if is_final s then some now else old)
kept_time now s old = elim (Bool-cases (is_final s)) [ inl e ↦ rw e refl | inr e ↦ rw e refl ]

save_report_lem :
    (now admin : ℕ) (s : ReportStatus) (notes : Option String) (r : Report) (o : Option User)
    (db : Database)
    → find_report_by_id r.id db ≡ some r
    → find_report_by_id r.id (save_report (loaded_with now admin s notes r o) db)
      ≡ some (merge_report (loaded_with now admin s notes r o) r)
unfolding save_report find_report_by_id
save_report_lem now admin s notes r o db h =
    find_one-update_where _ (merge_report (loaded_with now admin s notes r o)) db.reports r
      (λ y _. ==_refl r.id) h

-- When an admin sets the status of a report whose resolver is there, the table keeps that resolver,
-- whoever the admin is, with the present time if the status is final and the old time if not; the
-- answer has the admin's id and the present time, or neither, and the old resolver as its relation.
pub update-keeps_resolver :
    (now admin : ℕ) (s : ReportStatus) (notes : Option String) (w : World) (r q : Report) (u : User)
    → find_report_by_id r.id w.db ≡ some r
    → resolver_of r w.db ≡ some u
    → find_report_by_id r.id (update_report_status now r.id admin s notes w).1.db ≡ some q
    → ((update_report_status now r.id admin s notes w).0
        ≡ ok (record {
          report = record r {
            status = s;
            admin_notes = or_else notes r.admin_notes;
            resolved_by = if is_final s then some admin else none;
            resolved_at = if is_final s then some now else none;
          };
          resolver = some u;
        }))
      × (q.resolved_by ≡ some u.id)
      × (q.resolved_at ≡ (if is_final s then some now else r.resolved_at))
unfolding update_report_status ◌>>=◌
update-keeps_resolver now admin s notes w r q u found known =
    rw (found, known, ◌>>=◌)
      λ after.
        let stored = save_report_lem now admin s notes r (some u) w.db found in
        let same : some (merge_report (loaded_with now admin s notes r (some u)) r) ≡ some q =
          sym stored ∙ after in
        let row : merge_report (loaded_with now admin s notes r (some u)) r ≡ q = ground arith in
        (refl, rw (sym row) refl, rw (sym row) (kept_time now s r.resolved_at))
