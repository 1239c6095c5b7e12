-- ===== src/Backup/Service.antt =====
-- backup/backup.service.ts. The test of a backup's stream is whether its file is there.
use drawback_backend.Prelude.{
  ℕ, String, Bool, true, false, Option, none, some, ◌==◌, ◌&&◌, not, find_one, str_eq,
}
use drawback_backend.World.{Result, err, error, not_found, bad_request}
use drawback_backend.Backup.{
  BackupType, BackupScope, BackupSource, BackupDocument, StoredFile, Backups, Tools, Exec, return,
  throw, gets, or_throw, choose, modify, throw_if, ◌>>=◌, ◌>>◌,
}
use drawback_backend.Backup.Store.{
  is_full, store_backup, get_latest_periodic_full, get_latest_rolling_data, find_by_id,
  delete_old_periodic_backups,
}

abbrev pub set_active : Bool → Backups → Backups
set_active b s = record s { operation_active = b }

abbrev pub released {ℓ} : {A : Type ℓ} → Result A × Backups → Result A × Backups
released (r, s) = (r, set_active false s)

abbrev pub if_active {ℓ} : {A : Type ℓ} → Bool → Exec A → Exec A
if_active true m s = (err (bad_request "another backup operation is already running"), s)
if_active false m s = released (m (set_active true s))

-- One operation at a time; the flag goes whatever comes of it.
unfoldable pub run_exclusive {ℓ} : {A : Type ℓ} → Exec A → Exec A
run_exclusive m s = if_active s.operation_active m s

-- What is stored of a dump stays even if mysqldump then fails.
unfoldable pub run_backup :
    Tools
    → (id file_id now : ℕ) → BackupType
    → BackupScope
    → BackupSource
    → Option String
    → Exec BackupDocument
run_backup tools id file_id now type scope source rolling_key = do
  answer ← gets (λ s. tools.dump scope s.database)
  d ← or_throw answer (error "mysqldump not available")
  saved ← store_backup tools id file_id now (record {
    backup_type = type;
    scope = scope;
    source = source;
    content = d.content;
    rolling_key = rolling_key;
  })
  throw_if (not d.succeeded) (error "mysqldump failed")
  return saved

unfoldable pub run_periodic_backup :
    Tools → (retain id file_id now : ℕ) → BackupSource → Exec BackupDocument
run_periodic_backup tools retain id file_id now source = run_exclusive (do
  backup ← run_backup tools id file_id now BackupType.periodic_full BackupScope.full source none
  _removed ← delete_old_periodic_backups tools retain
  return backup)

pub data RestoreSource : Type 0 where
  latest_periodic latest_rolling : RestoreSource

-- An id is one of MongoDB.
unfoldable pub resolve_restore_target : Option ℕ → RestoreSource → Exec BackupDocument
resolve_restore_target (some id) source = do
  found ← gets (find_by_id id)
  or_throw found (not_found "Backup not found")
resolve_restore_target none latest_rolling = do
  found ← gets get_latest_rolling_data
  or_throw found (not_found "No rolling backup found")
resolve_restore_target none latest_periodic = do
  found ← gets get_latest_periodic_full
  or_throw found (not_found "No periodic full backup found")

unfoldable pub find_file : ℕ → Backups → Option StoredFile
find_file file_id s = find_one (λ f. f.id == file_id) s.files

abbrev pub set_database : String → Backups → Backups
set_database db s = record s { database = db }

unfoldable pub clear_schema : Tools → Exec (Unit {0})
clear_schema tools = do
  answer ← gets (λ s. tools.clear_schema s.database)
  db ← or_throw answer (error "Failed to clear the schema")
  modify (set_database db)

abbrev pub is_intact : Tools → BackupDocument → String → Bool
is_intact tools d content =
    str_eq (tools.sha256 content) d.checksum_sha256 && tools.size content == d.size_bytes

abbrev pub break_off : Tools → String → Exec (Unit {0})
break_off tools content =
    modify (λ s. set_database (tools.broken content s.database) s) >> throw (error "restore failed")

abbrev pub read_in : Tools → String → Option String → Exec (Unit {0})
read_in tools content none = break_off tools content
read_in tools content (some db) = modify (set_database db)

-- The checksum is known at the end of the stream, when MySQL has read it.
unfoldable pub restore_from_stream : Tools → BackupDocument → String → Exec (Unit {0})
restore_from_stream tools d content =
    choose (is_intact tools d content)
      (gets (λ s. tools.restore content s.database) >>= read_in tools content)
      (break_off tools content)

pub record RestoreResult : Type 0 where
  pub restored_from : BackupDocument
  pub pre_restore_backup_id : ℕ
  pub restored_at : ℕ

unfoldable pub restore_from_backup :
    Tools → (id file_id now : ℕ) → Option ℕ → RestoreSource → Exec RestoreResult
restore_from_backup tools id file_id now backup_id source = run_exclusive (do
  selected ← resolve_restore_target backup_id source
  test ← gets (find_file selected.file_id)
  _there ← or_throw test (error "FileNotFound")
  pre_restore ←
      run_backup tools id file_id now BackupType.pre_restore BackupScope.full BackupSource.manual
        none
  found ← gets (find_file selected.file_id)
  file ← or_throw found (error "FileNotFound")
  choose (is_full selected.scope) (clear_schema tools) (return tt)
  restore_from_stream tools selected file.content
  return (record {
    restored_from = selected;
    pre_restore_backup_id = pre_restore.id;
    restored_at = now;
  }))
