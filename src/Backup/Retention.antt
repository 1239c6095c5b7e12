-- ===== src/Backup/Retention.antt =====
-- The number of periodic backups that are kept.
use drawback_backend.Prelude.{
  ℕ, Bool, false, List, [], ◌∷◌, ◌≡◌, refl, ap, ◌≤◌, ◌==◌, ==_refl, ◌&&◌, ◌||◌, not, count, any,
  drop, select, sort_desc, remove_where, count-remove_where, count_mono, count_congr, count-select,
  count-sort_desc, count-drop, Bool-cases, inl, inr, arith,
}
use drawback_backend.Backup.{BackupDocument, Backups, Tools, ◌>>=◌}
use drawback_backend.Backup.Store.{
  is_periodic_full, periodic_backups, delete_backup, delete_document, delete_file, delete_each,
  delete_old_periodic_backups,
}

none_outside : (ds : List BackupDocument) → count (λ d. not (any (λ x. d.id == x.id) ds)) ds ≡ 0
unfolding any count
none_outside [] = refl
none_outside (d ∷ ds) =
    let rest = none_outside ds in
    let fewer =
      count_mono (λ x. not (any (λ y. x.id == y.id) ds))
        (λ x. not ((x.id == d.id) || any (λ y. x.id == y.id) ds)) ds (λ x h. ground (arith, h)) in
    let here = ==_refl d.id in ground (arith, rest, fewer, here)

module _ (tools : Tools) (works : (i : ℕ) → tools.metadata_fails i ≡ false) where
  deleted_documents :
      (d : BackupDocument) (s : Backups)
      → (delete_backup tools d s).documents ≡ remove_where (λ x. x.id == d.id) s.documents
  unfolding delete_document delete_file
  deleted_documents d s = elim (Bool-cases (tools.file_fails d.file_id)) [
    | inl e ↦ rw (works d.id, e) refl
    | inr e ↦ rw (works d.id, e) refl
  ]

  delete_each-le :
      (q : BackupDocument → Bool) (ds : List BackupDocument) (s : Backups)
      → count q (delete_each tools ds s).documents
        ≤ count (λ d. not (any (λ x. d.id == x.id) ds) && q d) s.documents
  unfolding delete_each any
  delete_each-le q [] s = count_mono _ q s.documents (λ d h. h)
  delete_each-le q (d ∷ ds) s =
      let rest = delete_each-le q ds (delete_backup tools d s) in
      let gone = deleted_documents d s in
      let left =
        count-remove_where (λ x. x.id == d.id) (λ x. not (any (λ y. x.id == y.id) ds) && q x)
          s.documents in
      let same =
        count_mono (λ x. not ((x.id == d.id) || any (λ y. x.id == y.id) ds) && q x)
          (λ x. not (x.id == d.id) && (not (any (λ y. x.id == y.id) ds) && q x)) s.documents
          (λ x h. ground (arith, h)) in
      let moved = ap (count (λ x. not (any (λ y. x.id == y.id) ds) && q x)) gone in
      omega (arith, rest, moved, left, same)

  delete_old-bound :
      (retain : ℕ) (s : Backups)
      → count is_periodic_full (delete_each tools (drop retain (periodic_backups s)) s).documents
        ≤ retain
  unfolding periodic_backups
  delete_old-bound retain s =
      let newest =
        sort_desc (λ (d : BackupDocument). d.created_at) (select is_periodic_full s.documents) in
      let kept = λ (d : BackupDocument). not (any (λ x. d.id == x.id) (drop retain newest)) in
      let left = delete_each-le is_periodic_full (drop retain newest) s in
      let swapped =
        count_congr (λ d. kept d && is_periodic_full d) (λ d. is_periodic_full d && kept d)
          s.documents (λ d. ground arith) in
      let selected = count-select is_periodic_full kept s.documents in
      let sorted =
        count-sort_desc (λ (d : BackupDocument). d.created_at) kept
          (select is_periodic_full s.documents) in
      let dropped = count-drop kept retain newest in
      let outside = none_outside (drop retain newest) in
      omega (arith, left, swapped, selected, sorted, dropped, outside)

-- After the old periodic backups were deleted, and no deletion of a document failed, there are no more of
-- them than are to be retained, whether or not the deletions of their files failed.
pub delete_old_periodic_backups-bound :
    (tools : Tools) (retain : ℕ) (s : Backups)
    → ((i : ℕ) → tools.metadata_fails i ≡ false)
    → count is_periodic_full (delete_old_periodic_backups tools retain s).1.documents ≤ retain
unfolding delete_old_periodic_backups ◌>>=◌
delete_old_periodic_backups-bound tools retain s works = delete_old-bound tools works retain s
