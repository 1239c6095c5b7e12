-- ===== src/Backup/Store.antt =====
-- backup/mongo-backup.repository.ts.
use drawback_backend.Prelude.{
  ℕ, String, Bool, true, false, List, [], ◌∷◌, ◌++◌, Option, none, some, ◌==◌, ◌&&◌, ◌||◌, not, ltb,
  length, find_one, select, remove_where, update_where, take, drop, sort_desc, str_eq, head_of,
  is_text, if◌then◌else◌,
}
use drawback_backend.World.{error}
use drawback_backend.Backup.{
  BackupType, BackupScope, BackupSource, BackupDocument, Backups, Tools, Exec, return, gets,
  or_throw, choose, modify, throw_if, ◌>>=◌, ◌>>◌,
}

abbrev pub is_periodic : BackupType → Bool
is_periodic BackupType.periodic_full = true
is_periodic _ = false

abbrev pub is_full : BackupScope → Bool
is_full BackupScope.full = true
is_full BackupScope.data_only = false

abbrev pub is_periodic_full : BackupDocument → Bool
is_periodic_full d = is_periodic d.backup_type && is_full d.scope

pub record Upload : Type 0 where
  pub backup_type : BackupType
  pub scope : BackupScope
  pub source : BackupSource
  pub content : String
  pub rolling_key : Option String

abbrev pub document_of : Tools → ℕ → ℕ → ℕ → Upload → BackupDocument
document_of tools id file_id now u = record {
  id = id;
  backup_type = u.backup_type;
  scope = u.scope;
  source = u.source;
  filename = tools.filename u.backup_type u.scope now;
  file_id = file_id;
  checksum_sha256 = tools.sha256 u.content;
  size_bytes = tools.size u.content;
  created_at = now;
  updated_at = now;
  rolling_key = u.rolling_key;
}

unfoldable pub upload_stream : ℕ → String → Backups → Backups
upload_stream file_id content s = record s {
  files = s.files ++ record { id = file_id; content = content } ∷ [];
}

unfoldable pub insert_document : BackupDocument → Backups → Backups
insert_document d s = record s { documents = s.documents ++ d ∷ [] }

unfoldable pub delete_file : ℕ → Backups → Backups
delete_file file_id s = record s { files = remove_where (λ f. f.id == file_id) s.files }

unfoldable pub delete_document : ℕ → Backups → Backups
delete_document id s = record s { documents = remove_where (λ d. d.id == id) s.documents }

-- `$set` of the fields of a rolling backup; the others stay.
abbrev pub rolled : BackupDocument → BackupDocument → BackupDocument
rolled new d = record d {
  backup_type = new.backup_type;
  scope = new.scope;
  source = new.source;
  filename = new.filename;
  file_id = new.file_id;
  checksum_sha256 = new.checksum_sha256;
  size_bytes = new.size_bytes;
  updated_at = new.updated_at;
}

abbrev pub with_key : String → BackupDocument → Bool
with_key key d = is_text d.rolling_key key

abbrev pub drop_previous : Tools → Option BackupDocument → Backups → Backups
drop_previous tools none s = s
drop_previous tools (some d) s = if tools.file_fails d.file_id then s else delete_file d.file_id s

abbrev pub write_rolling : Option BackupDocument → String → BackupDocument → Backups → Backups
write_rolling none key new s = insert_document new s
write_rolling (some d) key new s = record s {
  documents = update_where (λ x. x.id == d.id) (rolled new) s.documents;
}

unfoldable pub upsert_rolling_backup : Tools → String → BackupDocument → Exec BackupDocument
upsert_rolling_backup tools key new = do
  existing ← gets (λ s. find_one (with_key key) s.documents)
  modify (drop_previous tools existing)
  modify (write_rolling existing key new)
  saved ← gets (λ s. find_one (with_key key) s.documents)
  or_throw saved (error "Failed to load rolling backup metadata after upsert")

-- A key that is not empty makes a rolling backup.
abbrev pub if_rolling :
    Option String → Exec BackupDocument → (String → Exec BackupDocument) → Exec BackupDocument
if_rolling none m k = m
if_rolling (some key) m k = choose (str_eq key "") m (k key)

unfoldable pub store_backup : Tools → ℕ → ℕ → ℕ → Upload → Exec BackupDocument
store_backup tools id file_id now u = do
  modify (upload_stream file_id u.content)
  if_rolling u.rolling_key
      (do
        modify (insert_document (document_of tools id file_id now u))
        saved ← gets (λ s. find_one (λ d. d.id == id) s.documents)
        or_throw saved (error "Failed to load backup metadata after insert"))
      (λ key. upsert_rolling_backup tools key (document_of tools id file_id now u))

unfoldable pub periodic_backups : Backups → List BackupDocument
periodic_backups s = sort_desc (λ d. d.created_at) (select is_periodic_full s.documents)

unfoldable pub get_latest_periodic_full : Backups → Option BackupDocument
get_latest_periodic_full s = head_of (periodic_backups s)

unfoldable pub get_latest_rolling_data : Backups → Option BackupDocument
get_latest_rolling_data s = find_one (with_key "rolling_data") s.documents

unfoldable pub find_by_id : ℕ → Backups → Option BackupDocument
find_by_id id s = find_one (λ d. d.id == id) s.documents

unfoldable pub list_backups : ℕ → Exec (List BackupDocument)
list_backups limit = do
  throw_if (ltb limit 1 || ltb 200 limit) (error "limit must be between 1 and 200")
  gets (λ s. take limit (sort_desc (λ d. d.created_at) s.documents))

-- The file stays where its document could not be deleted.
abbrev pub delete_backup : Tools → BackupDocument → Backups → Backups
delete_backup tools d s =
    if tools.metadata_fails d.id
    then s
    else if tools.file_fails d.file_id
    then delete_document d.id s
    else delete_file d.file_id (delete_document d.id s)

unfoldable pub delete_each : Tools → List BackupDocument → Backups → Backups
delete_each tools [] s = s
delete_each tools (d ∷ ds) s = delete_each tools ds (delete_backup tools d s)

unfoldable pub count_deleted : Tools → List BackupDocument → ℕ
count_deleted tools ds = length (select (λ d. not (tools.metadata_fails d.id)) ds)

unfoldable pub delete_old_periodic_backups : Tools → ℕ → Exec ℕ
delete_old_periodic_backups tools retain = do
  old ← gets (λ s. drop retain (periodic_backups s))
  modify (delete_each tools old)
  return (count_deleted tools old)
