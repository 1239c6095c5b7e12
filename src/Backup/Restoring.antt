-- ===== src/Backup/Restoring.antt =====
-- A backup, and a restore of it.
use drawback_backend.Prelude.{
  ℕ, String, true, false, [], ◌∷◌, ◌++◌, none, some, ◌≡◌, refl, ap, subst, ◌==◌, ==_refl, eq_refl,
  find_one-append_new, find_one-append_found,
}
use drawback_backend.World.{ok}
use drawback_backend.Backup.{
  BackupType, BackupScope, BackupSource, BackupDocument, StoredFile, Backups, Dump, Tools, ◌>>=◌,
}
use drawback_backend.Backup.Store.{
  document_of, store_backup, upload_stream, insert_document, find_by_id,
}
use drawback_backend.Backup.Service.{
  run_exclusive, run_backup, resolve_restore_target, find_file, clear_schema, restore_from_stream,
  restore_from_backup, RestoreSource, set_active, set_database,
}

abbrev pub dumped : String → Dump
dumped c = record { content = c; succeeded = true }

module _ (tools : Tools) where
  abbrev made : (id file_id now : ℕ) → BackupType → BackupSource → String → BackupDocument
  made id file_id now type source content = document_of tools id file_id now (record {
    backup_type = type;
    scope = BackupScope.full;
    source = source;
    content = content;
    rolling_key = none;
  })

  abbrev stored : (id file_id now : ℕ) → BackupType → BackupSource → String → Backups → Backups
  stored id file_id now type source content s = record s {
    documents = s.documents ++ made id file_id now type source content ∷ [];
    files = s.files ++ record { id = file_id; content = content } ∷ [];
  }

  run_backup_lem :
      (id file_id now : ℕ) (type : BackupType) (source : BackupSource) (content : String)
      (s : Backups)
      → tools.dump BackupScope.full s.database ≡ some (dumped content)
      → find_by_id id s ≡ none
      → run_backup tools id file_id now type BackupScope.full source none s ≡ (
        ok (made id file_id now type source content),
        stored id file_id now type source content s,
      )
  unfolding run_backup store_backup upload_stream insert_document find_by_id ◌>>=◌
  run_backup_lem id file_id now type source content s dump fresh =
      let saved =
        find_one-append_new (λ (d : BackupDocument). d.id == id) s.documents
          (made id file_id now type source content) fresh (==_refl id) in
      rw (dump, saved, ◌>>=◌) refl

  restored :
      (id id' file_id file_id' now now' : ℕ) (type : BackupType) (source : BackupSource)
      (from : RestoreSource) (content content' x y : String) (s : Backups)
      → s.operation_active ≡ false
      → find_by_id id s ≡ none
      → find_file file_id s ≡ none
      → find_by_id id' (stored id file_id now type source content s) ≡ none
      → tools.dump BackupScope.full x ≡ some (dumped content')
      → tools.clear_schema x ≡ some y
      → tools.restore content y ≡ some s.database
      → (restore_from_backup tools id' file_id' now'
          (some id)
          from
          (set_database x (stored id file_id now type source content s))).1.database
        ≡ s.database
  unfolding restore_from_backup run_exclusive resolve_restore_target find_file find_by_id
      clear_schema restore_from_stream ◌>>=◌
  restored id id' file_id file_id' now now' type source from content content' x y s idle fresh
        fresh_file fresh' dump clear restore =
      let document =
        find_one-append_new (λ (d : BackupDocument). d.id == id) s.documents
          (made id file_id now type source content) fresh (==_refl id) in
      let file =
        find_one-append_new (λ (f : StoredFile). f.id == file_id) s.files
          (record { id = file_id; content = content }) fresh_file (==_refl file_id) in
      let before =
        run_backup_lem id' file_id' now' BackupType.pre_restore BackupSource.manual content'
          (set_active true (set_database x (stored id file_id now type source content s))) dump
          fresh' in
      let kept_file =
        find_one-append_found (λ (f : StoredFile). f.id == file_id)
          (stored id file_id now type source content s).files
          (record { id = file_id'; content = content' } ∷ [])
          (record { id = file_id; content = content }) file in
      rw
        (
          idle,
          document,
          file,
          before,
          kept_file,
          clear,
          eq_refl (tools.sha256 content),
          ==_refl (tools.size content),
          restore,
          ◌>>=◌,
        )
        refl

-- A full backup that was made while no operation was active is restored by its id: whatever the
-- database has become since, it is then what it was when the backup was made. This asks that the
-- ids are new, that mysqldump and the clearing of the schema succeed, and that MySQL makes the database
-- again when it reads its dump into the empty schema.
pub run_backup-restore :
    (tools : Tools) (id id' file_id file_id' now now' : ℕ) (type : BackupType)
    (source : BackupSource) (from : RestoreSource) (content content' x y : String) (s : Backups)
    → s.operation_active ≡ false
    → find_by_id id s ≡ none
    → find_file file_id s ≡ none
    → tools.dump BackupScope.full s.database ≡ some (dumped content)
    → find_by_id id' (run_backup tools id file_id now type BackupScope.full source none s).1 ≡ none
    → tools.dump BackupScope.full x ≡ some (dumped content')
    → tools.clear_schema x ≡ some y
    → tools.restore content y ≡ some s.database
    → (restore_from_backup tools id' file_id' now' (some id) from (
        set_database x
          (run_backup tools id file_id now type BackupScope.full source none s).1)).1.database
      ≡ s.database
run_backup-restore tools id id' file_id file_id' now now' type source from content content' x y s
      idle fresh fresh_file dump fresh' dump' clear restore =
    let run =
      ap (λ r. r.1) (run_backup_lem tools id file_id now type source content s dump fresh) in
    let new : find_by_id id' (stored tools id file_id now type source content s) ≡ none =
      subst (λ t. find_by_id id' t ≡ none) run fresh' in
    rw run (
      restored tools id id' file_id file_id' now now' type source from content content' x y s idle
        fresh fresh_file new dump' clear restore)
