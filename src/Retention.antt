-- ===== src/Retention.antt =====
-- Retention: the loop that `finalize_backup` of apps/_tasks/integration/storage/tasks.py and
-- `poll_cloud_backup` of apps/_tasks/helper/tasks.py run after a backup of a schedule has completed,
-- and the `soft_delete` methods of apps/console/backup/models.py that it calls.
pub mod Sorting
pub mod Deletes
pub mod Expiry
pub mod Retain
pub mod Serialized
use backupsheep.Prelude.{
  ℕ, zero, suc, ◌-◌, Bool, true, false, not, ◌&&◌, List, [], ◌∷◌, map, Option, none, some, ◌==◌,
  ◌==?◌, ltb, leb, if◌then◌else◌, filter, find?, length, take,
}
use backupsheep.Model.Status.{BackupStatus, PointStatus, StorageCode, is_complete}
use backupsheep.Model.Rows.{StoragePoint, Backup, Schedule, Message, Db, is_completed, set_status}
use backupsheep.Node.{send, save_backup}

-- `order_by("created")`; the rows that were created at one time keep their order.
unfoldable pub insert_by_created : Backup → List Backup → List Backup
insert_by_created b [] = b ∷ []
insert_by_created b (c ∷ cs) =
    let rest = insert_by_created b cs in if leb b.created c.created then b ∷ c ∷ cs else c ∷ rest

unfoldable pub order_by_created : List Backup → List Backup
unfolding insert_by_created
order_by_created [] = []
order_by_created (b ∷ bs) = insert_by_created b (order_by_created bs)

-- `filter(schedule=…, status=COMPLETE)`
abbrev pub is_completed_of : ℕ → Backup → Bool
is_completed_of s b = is_complete b.status && b.schedule_id ==? some s

-- `completed[:-keep_last]`, which is empty for 0
unfoldable pub expired : ℕ → ℕ → List Backup → List Backup
unfolding order_by_created
expired s keep_last backups =
    let completed = order_by_created (filter (is_completed_of s) backups) in
    if keep_last == 0 then [] else take (length completed - keep_last) completed

-- `for old_backup in completed[:-keep_last]: old_backup.soft_delete()`
unfoldable pub soft_delete_all : (Backup → Db → Db) → List Backup → Db → Db
soft_delete_all soft_delete [] db = db
soft_delete_all soft_delete (b ∷ bs) db = soft_delete_all soft_delete bs (soft_delete b db)

-- `keep_last or 0`
abbrev or_zero : Option ℕ → ℕ
or_zero none = 0
or_zero (some k) = k

unfoldable retain_schedule : (Backup → Db → Db) → Option Schedule → Db → Db
unfolding expired soft_delete_all
retain_schedule soft_delete none db = db
retain_schedule soft_delete (some s) db =
    if ltb 0 (or_zero s.keep_last)
    then soft_delete_all soft_delete (expired s.id (or_zero s.keep_last) db.backups) db
    else db

-- `backup.schedule`, the row that the foreign key names
unfoldable pub schedule_of : Backup → Db → Option Schedule
schedule_of b db = elim b.schedule_id [
  | none ↦ none
  | some s ↦ find? (λ row. row.id == s) db.schedules
]

unfoldable pub retain : (Backup → Db → Db) → Backup → Db → Db
unfolding retain_schedule schedule_of
retain soft_delete b db = retain_schedule soft_delete (schedule_of b db) db

-- What comes of the calls that delete the file of a storage point: they return and the service says
-- that the file is gone, they return without its saying so, or one of them raises.
pub data StorageAnswer : Type 0 where
  accepted refused raised : StorageAnswer

-- `if result.status_code == 204: return True`, which only the clause of Google Drive has: it leaves
-- the method before the status is saved and the log is written.
unfoldable pub returns_early : StorageCode → StorageAnswer → Bool
returns_early StorageCode.google_drive StorageAnswer.accepted = true
returns_early code answer = false

unfoldable pub deleted_status : StorageAnswer → PointStatus
deleted_status StorageAnswer.raised = PointStatus.delete_failed
deleted_status answer = PointStatus.delete_completed

-- `if self.storage_file_id`
unfoldable pub has_file : StoragePoint → Bool
has_file p = elim p.storage_file_id [ none ↦ false | some [] ↦ false | some (c ∷ cs) ↦ true ]

-- BaseBackupStoragePoints.soft_delete: a point that has no file keeps its status.
unfoldable pub soft_delete_point : (StoragePoint → StorageAnswer) → StoragePoint → StoragePoint
unfolding returns_early deleted_status has_file
soft_delete_point answer p =
    if has_file p && not (returns_early p.storage_code (answer p))
    then record p { status = deleted_status (answer p) }
    else p

log_point : (StoragePoint → StorageAnswer) → ℕ → StoragePoint → Db → Db
unfolding returns_early has_file
log_point answer i p db =
    if has_file p && returns_early p.storage_code (answer p)
    then db
    else send (Message.storage_log i p.id) db

log_points : (StoragePoint → StorageAnswer) → ℕ → List StoragePoint → Db → Db
unfolding log_point
log_points answer i [] db = db
log_points answer i (p ∷ ps) db = log_points answer i ps (log_point answer i p db)

-- CoreWebsiteBackup.soft_delete, and those of the database, WordPress and Basecamp backups
files_deleted : (StoragePoint → StorageAnswer) → Backup → Backup
unfolding soft_delete_point
files_deleted answer b = record b {
  status = BackupStatus.delete_completed;
  storage_points = map (soft_delete_point answer) b.storage_points;
}

unfoldable pub files_soft_delete : (StoragePoint → StorageAnswer) → Backup → Db → Db
unfolding save_backup files_deleted log_points
files_soft_delete answer b db =
    save_backup b.id (files_deleted answer) (log_points answer b.id b.storage_points db)

-- What comes of the calls that delete a snapshot: they return as they are to, they raise
-- ResourceNotFoundError (which OVH has a clause for), or they raise anything else.
pub data SnapshotAnswer : Type 0 where
  deleted not_found failed : SnapshotAnswer

unfoldable pub snapshot_status : SnapshotAnswer → BackupStatus
snapshot_status SnapshotAnswer.deleted = BackupStatus.delete_completed
snapshot_status SnapshotAnswer.not_found = BackupStatus.delete_failed_not_found
snapshot_status SnapshotAnswer.failed = BackupStatus.delete_failed

-- CoreOVHCABackup.soft_delete once it has its client; whether the snapshot is gone, the status and the
-- log say. The other providers do the same, but for what SoftDelete says of them.
unfoldable pub cloud_soft_delete : (ℕ → SnapshotAnswer) → Backup → Db → Db
unfolding save_backup snapshot_status
cloud_soft_delete answer b db =
    send (Message.backup_log b.id)
      (save_backup b.id (set_status (snapshot_status (answer b.id))) db)
