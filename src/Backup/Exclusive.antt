-- ===== src/Backup/Exclusive.antt =====
-- One operation on backups at a time.
use drawback_backend.Prelude.{ℕ, Bool, true, false, Option, ◌≡◌, refl}
use drawback_backend.World.{Result, ok, err, bad_request}
use drawback_backend.Backup.{BackupSource, Backups, Tools, Exec, ◌>>=◌}
use drawback_backend.Backup.Service.{
  run_exclusive, if_active, released, set_active, run_periodic_backup, restore_from_backup,
  RestoreSource,
}

-- The two operations that change backups.
pub data BackupCall : Type 0 where
  periodic : (retain id file_id now : ℕ) → BackupSource → BackupCall
  restore : (id file_id now : ℕ) → Option ℕ → RestoreSource → BackupCall

abbrev outcome_of {ℓ} : {A : Type ℓ} → Result A × Backups → Result (Unit {0}) × Backups
outcome_of (ok a, s) = (ok tt, s)
outcome_of (err e, s) = (err e, s)

abbrev pub run : Tools → BackupCall → Exec (Unit {0})
run tools (periodic retain id file_id now source) s =
    outcome_of (run_periodic_backup tools retain id file_id now source s)
run tools (restore id file_id now backup_id source) s =
    outcome_of (restore_from_backup tools id file_id now backup_id source s)

-- While an operation is active a call is refused and changes nothing; else none is active after it.
abbrev pub RunOutcome : Bool → Backups → Result (Unit {0}) → Backups → Type 0
RunOutcome true s r s' =
    (r ≡ err (bad_request "another backup operation is already running")) × (s' ≡ s)
RunOutcome false s r s' = s'.operation_active ≡ false

ended {ℓ} :
    {A : Type ℓ} (r : Result A) (s : Backups)
    → (outcome_of (released (r, s))).1.operation_active ≡ false
ended (ok a) s = refl
ended (err e) s = refl

exclusive_at {ℓ} :
    {A : Type ℓ} (b : Bool) (m : Exec A) (s : Backups)
    → RunOutcome b s (outcome_of (if_active b m s)).0 (outcome_of (if_active b m s)).1
exclusive_at true m s = (refl, refl)
exclusive_at false m s = ended (m (set_active true s)).0 (m (set_active true s)).1

-- A periodic backup or a restore that is called while one of them is active is refused and changes
-- nothing; otherwise none is active once it has ended, with a result or by an exception.
pub run-RunOutcome :
    (tools : Tools) (c : BackupCall) (s : Backups)
    → RunOutcome s.operation_active s (run tools c s).0 (run tools c s).1
unfolding run_periodic_backup restore_from_backup run_exclusive
run-RunOutcome tools (periodic retain id file_id now source) s = exclusive_at s.operation_active _ s
run-RunOutcome tools (restore id file_id now backup_id source) s =
    exclusive_at s.operation_active _ s

-- When no operation is active and one begins, a periodic backup or a restore that is called while it
-- is under way, after whatever part of it returned with the operation still active, is refused and
-- changes nothing but that the flag is taken back as the operation ends.
pub run_exclusive-refuses {ℓ} :
    {A : Type ℓ} (tools : Tools) (c : BackupCall) (part : Exec A) (s s1 : Backups) (a : A)
    → s.operation_active ≡ false
    → part (set_active true s) ≡ (ok a, s1)
    → s1.operation_active ≡ true
    → run_exclusive (part >>= λ _. run tools c) s
      ≡ (err (bad_request "another backup operation is already running"), set_active false s1)
unfolding run_exclusive ◌>>=◌ run_periodic_backup restore_from_backup
run_exclusive-refuses tools (periodic retain id file_id now source) part s s1 a h e h1 =
    rw (h, e, h1, ◌>>=◌) refl
run_exclusive-refuses tools (restore id file_id now backup_id source) part s s1 a h e h1 =
    rw (h, e, h1, ◌>>=◌) refl
