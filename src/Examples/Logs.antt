-- ===== src/Examples/Logs.antt =====
-- The theorems on the log of sessions and on backups.
use drawback_backend.Prelude.{
  ℕ, true, false, [], ◌∷◌, none, some, ◌≡◌, refl, ◌+◌, ◌-◌, ◌≤◌, count, leb, find_one,
}
use drawback_backend.Schema.{Database}
use drawback_backend.Schema.Enums.{SessionEventType}
use drawback_backend.Schema.Entities.{SessionEvent}
use drawback_backend.World.{ok, err, bad_request}
use drawback_backend.SessionEvents.{get_event_stats, days}
use drawback_backend.SessionEvents.Statistics.{get_event_stats-counts_older}
use drawback_backend.Backup.{
  BackupType, BackupScope, BackupSource, BackupDocument, Backups, Tools, Exec, return, ◌>>=◌,
}
use drawback_backend.Backup.Service.{
  run_backup, restore_from_backup, find_file, set_database, set_active, run_exclusive,
  RestoreSource,
}
use drawback_backend.Backup.Restoring.{run_backup-restore}
use drawback_backend.Backup.Store.{
  find_by_id, store_backup, upload_stream, insert_document, is_periodic_full,
  delete_old_periodic_backups,
}
use drawback_backend.Backup.Exclusive.{periodic, run, run_exclusive-refuses}
use drawback_backend.Backup.Retention.{delete_old_periodic_backups-bound}
use drawback_backend.Examples.{no_rows}

abbrev first_event : SessionEvent
first_event = record {
  id = 1;
  user_id = 1;
  event_type = SessionEventType.connect;
  ip_address = none;
  socket_id = some "s";
  room_id = none;
  request_id = none;
  created_at = 10;
}

abbrev logged : Database
logged = record no_rows {
  session_events = first_event ∷ record first_event { id = 2; created_at = 90000000 } ∷ [];
}

get_event_stats-counts_older_example :
    let s = get_event_stats 90000001 logged in
    (s.by_type SessionEventType.connect
        + s.by_type SessionEventType.disconnect
        + s.by_type SessionEventType.chat_joined
        + s.by_type SessionEventType.chat_left
      ≡ s.total)
    × (s.last_24_hours + count (λ e. leb (90000001 - days 1) e.created_at) logged.session_events
        ≡ s.total)
    × (s.last_7_days + count (λ e. leb (90000001 - days 7) e.created_at) logged.session_events
        ≡ s.total)
get_event_stats-counts_older_example = get_event_stats-counts_older 90000001 logged

abbrev tools : Tools
tools = record {
  dump = λ scope db. some (record { content = db; succeeded = true });
  clear_schema = λ db. some "";
  restore = λ content db. some content;
  broken = λ content db. "";
  sha256 = λ s. s;
  size = λ s. 1;
  filename = λ type scope now. "backup.sql";
  metadata_fails = λ i. false;
  file_fails = λ i. true;
}

abbrev old_backup : BackupDocument
old_backup = record {
  id = 1;
  backup_type = BackupType.periodic_full;
  scope = BackupScope.full;
  source = BackupSource.cron;
  filename = "backup.sql";
  file_id = 1;
  checksum_sha256 = "rows";
  size_bytes = 1;
  created_at = 10;
  updated_at = 10;
  rolling_key = none;
}

abbrev store : Backups
store = record {
  operation_active = false;
  documents = old_backup ∷ record old_backup { id = 2; created_at = 20 } ∷ [];
  files = [];
  database = "rows";
}

abbrev begun : Exec ℕ
begun = return 7

returns : begun (set_active true store) ≡ (ok 7, set_active true store)
unfolding return
returns = refl

run_exclusive-refuses_example :
    let c = periodic 1 3 3 30 BackupSource.cron in
    run_exclusive (begun >>= λ _. run tools c) store ≡ (
      err (bad_request "another backup operation is already running"),
      set_active false (set_active true store),
    )
run_exclusive-refuses_example =
    run_exclusive-refuses tools (periodic 1 3 3 30 BackupSource.cron) begun store
      (set_active true store) 7 refl returns refl

delete_old_periodic_backups-bound_example :
    count is_periodic_full (delete_old_periodic_backups tools 1 store).1.documents ≤ 1
delete_old_periodic_backups-bound_example =
    delete_old_periodic_backups-bound tools 1 store (λ i. refl)

not_there : find_by_id 3 store ≡ none
unfolding find_by_id find_one
not_there = refl

no_file : find_file 3 store ≡ none
unfolding find_file find_one
no_file = refl

not_yet :
    find_by_id 4
      (run_backup tools 3 3 30 BackupType.periodic_full BackupScope.full BackupSource.cron none
        store).1
    ≡ none
unfolding find_by_id find_one run_backup store_backup upload_stream insert_document ◌>>=◌
not_yet = refl

run_backup-restore_example :
    (restore_from_backup tools 4 4 40 (some 3) RestoreSource.latest_periodic (
      set_database "lost"
        (run_backup tools 3 3 30 BackupType.periodic_full BackupScope.full BackupSource.cron none
          store).1)).1.database
    ≡ "rows"
run_backup-restore_example =
    run_backup-restore tools 3 4 3 4 30 40 BackupType.periodic_full BackupSource.cron
      RestoreSource.latest_periodic "rows" "lost" "lost" "" store refl not_there no_file refl
      not_yet refl refl refl
