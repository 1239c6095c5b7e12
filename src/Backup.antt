-- ===== src/Backup.antt =====
-- backup/: backups of the database in MongoDB (backup.service.ts, mongo-backup.repository.ts). The tools
-- of MySQL, sha256 and the length of a dump are parameters; an answer is `none` where a tool raises.
-- The new ids and the time are arguments. A connection to MongoDB does not fail, but a deletion may.
pub mod Store
pub mod Service
pub mod Retention
pub mod Restoring
pub mod Exclusive
use drawback_backend.Prelude.{ℕ, String, Bool, true, false, List, Option, none, some}
use drawback_backend.World.{Exception, Result, ok, err}

pub data BackupType : Type 0 where
  periodic_full rolling_data pre_restore : BackupType

pub data BackupScope : Type 0 where
  full data_only : BackupScope

pub data BackupSource : Type 0 where
  cron write_trigger manual : BackupSource

pub record BackupDocument : Type 0 where
  pub id : ℕ
  pub backup_type : BackupType
  pub scope : BackupScope
  pub source : BackupSource
  pub filename : String
  pub file_id : ℕ
  pub checksum_sha256 : String
  pub size_bytes : ℕ
  pub created_at : ℕ
  pub updated_at : ℕ
  pub rolling_key : Option String

-- A file of GridFS.
pub record StoredFile : Type 0 where
  pub id : ℕ
  pub content : String

-- `database` is the state of MySQL, as a text.
pub record Backups : Type 0 where
  pub operation_active : Bool
  pub documents : List BackupDocument
  pub files : List StoredFile
  pub database : String

-- What came out of mysqldump, and whether it ended well.
pub record Dump : Type 0 where
  pub content : String
  pub succeeded : Bool

-- The tools: the dump of a database, the empty schema, a database after a dump was read into it, and
-- one after a dump that broke off.
pub record Tools : Type 0 where
  pub dump : BackupScope → String → Option Dump
  pub clear_schema : String → Option String
  pub restore : String → String → Option String
  pub broken : String → String → String
  pub sha256 : String → String
  pub size : String → ℕ
  pub filename : BackupType → BackupScope → ℕ → String
  pub metadata_fails : ℕ → Bool
  pub file_fails : ℕ → Bool

-- Handlers on the backups, as those on the world are.
abbrev pub Exec {ℓ} : Type ℓ → Type ℓ
Exec A = Backups → Result A × Backups

module _ {ℓ} {A : Type ℓ} where
  unfoldable pub return : A → Exec A
  return a s = (ok a, s)

  unfoldable pub throw : Exception → Exec A
  throw e s = (err e, s)

  unfoldable pub gets : (Backups → A) → Exec A
  gets f s = (ok (f s), s)

  unfoldable pub or_throw : Option A → Exception → Exec A
  or_throw none e s = (err e, s)
  or_throw (some a) e s = (ok a, s)

  unfoldable pub choose : Bool → Exec A → Exec A → Exec A
  choose true m n = m
  choose false m n = n

unfoldable pub modify : (Backups → Backups) → Exec (Unit {0})
modify f s = (ok tt, f s)

unfoldable pub throw_if : Bool → Exception → Exec (Unit {0})
throw_if true e s = (err e, s)
throw_if false e s = (ok tt, s)

module _ {ℓ κ} {A : Type ℓ} {B : Type κ} where
  abbrev pub continue : Result A → (A → Exec B) → Exec B
  continue (ok a) f s = f a s
  continue (err e) f s = (err e, s)

  infixl 10 ◌>>=◌
  unfoldable pub ◌>>=◌ : Exec A → (A → Exec B) → Exec B
  unfolding return throw gets or_throw choose modify throw_if
  ◌>>=◌ m f s = let (r, s') = m s in continue r f s'

infixl 10 ◌>>◌
abbrev pub ◌>>◌ {κ} : {B : Type κ} → Exec (Unit {0}) → Exec B → Exec B
m >> n = m >>= λ _. n
