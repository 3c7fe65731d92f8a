-- ===== src/System.antt =====
-- The tasks and requests of one node as steps on its rows, in any order: the backup tasks of
-- apps/_tasks/integration/, `storage_upload` and `finalize_backup` of storage/tasks.py,
-- `poll_cloud_backup` of apps/_tasks/helper/tasks.py, `clean_delete_failed_backups` of the same file, and the soft deletes and cancels of
-- apps/console/backup/models.py. A step is one run; time may pass between two.
pub mod Safety
use backupsheep.Prelude.{ℕ, ◌≤◌, Bool, Option}
use backupsheep.Model.Status.{BackupStatus}
use backupsheep.Model.Rows.{StoragePoint, Backup, Db}
use backupsheep.Node.{Outside}
use backupsheep.Task.{Call}
use backupsheep.Task.Files as Files
use backupsheep.Task.Clouds as Clouds
use backupsheep.Upload.{Backend, UploadCall, storage_upload}
use backupsheep.Retention.{StorageAnswer, SnapshotAnswer, files_soft_delete, cloud_soft_delete}
use backupsheep.Finalize.{finalize_backup}
use backupsheep.Poll.{poll_cloud_backup}
use backupsheep.Deletion.{clean_delete_failed_backups}
use backupsheep.Cancel.{cloud_cancel, website_cancel, files_cancel}

pub data Step (o : Outside) (db : Db) : Db → Type 0 where
  website_run : (a : Files.Answers) (c : Call) → Step o db (Files.backup_website o a c db).1
  database_run :
      (engine : Files.Engine) (a : Files.Answers) (c : Call)
      → Step o db (Files.backup_database engine o a c db).1
  wordpress_run : (a : Files.Answers) (c : Call) → Step o db (Files.backup_wordpress o a c db).1
  basecamp_run : (a : Files.Answers) (c : Call) → Step o db (Files.backup_basecamp o a c db).1
  cloud_run :
      (p : Clouds.Provider) (a : Clouds.Answers) (c : Call)
      → Step o db (Clouds.cloud_backup p o a c db).1
  upload_run : (b : Backend) (c : UploadCall) → Step o db (storage_upload o.may_retry b c db).1
  finalize_run :
      (deleted : StoragePoint → StorageAnswer) (i : ℕ)
      → Step o db (finalize_backup (files_soft_delete deleted) i db).1
  poll_run :
      (deleted : ℕ → SnapshotAnswer) (timeout : ℕ) (answer : Option BackupStatus) (i : ℕ)
      (started_at : Option ℕ)
      → Step o db (poll_cloud_backup (cloud_soft_delete deleted) timeout answer i started_at db).1
  files_deleted :
      (deleted : StoragePoint → StorageAnswer) (b : Backup)
      → Step o db (files_soft_delete deleted b db)
  cloud_deleted :
      (deleted : ℕ → SnapshotAnswer) (b : Backup) → Step o db (cloud_soft_delete deleted b db)
  website_cancelled : (saves : ℕ → Bool) (b : Backup) → Step o db (website_cancel saves b db)
  files_cancelled : (b : Backup) → Step o db (files_cancel b db)
  cloud_cancelled : (b : Backup) → Step o db (cloud_cancel b db)
  cleaned : Step o db (clean_delete_failed_backups db)
  waited : (now : ℕ) → db.now ≤ now → Step o db (record db { now = now })

-- What runs of any number, in any order, can make of the rows.
pub data Reach (o : Outside) (db : Db) : Db → Type 0 where
  start : Reach o db db
  later : {after last : Db} → Reach o db after → Step o after last → Reach o db last
