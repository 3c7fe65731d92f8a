-- ===== src/Finalize.antt =====
-- The end of a backup whose uploads have all ended: `finalize_backup` of
-- apps/_tasks/integration/storage/tasks.py, the chord's callback, with `storage_points_uploaded` of
-- the backups of apps/console/backup/models.py.
pub mod Outcome
pub mod Serialized
use backupsheep.Prelude.{ℕ, Bool, true, false, Option, none, some, ltb, if◌then◌else◌, count}
use backupsheep.Model.Status.{BackupStatus, is_complete}
use backupsheep.Model.Rows.{Backup, Message, PathType, Db, is_uploaded, set_status}
use backupsheep.Node.{send, save_backup, get_cloud_backup}
use backupsheep.Retention.{retain}
use backupsheep.Upload.{has_files_table}

pub data FinalizeEnd : Type 0 where
  done does_not_exist params_not_provided : FinalizeEnd

unfoldable pub storage_points_uploaded : Backup → ℕ
storage_points_uploaded b = count is_uploaded b.storage_points

-- The status is set once; a backup that is complete already stays as it is.
settle : (Backup → Db → Db) → Backup → Db → Db
unfolding save_backup retain
settle soft_delete b db =
    if is_complete b.status
    then db
    else if ltb 0 (storage_points_uploaded b)
    then retain soft_delete b (
        send (Message.notify_backup_success b.id)
          (save_backup b.id (set_status BackupStatus.complete) db))
    else save_backup b.id (set_status BackupStatus.upload_failed) db

finalize_found : (Backup → Db → Db) → Option Backup → Db → FinalizeEnd × Db
unfolding settle
finalize_found soft_delete none db = (FinalizeEnd.does_not_exist, db)
finalize_found soft_delete (some b) db = (
  FinalizeEnd.done,
  send (Message.delete_from_disk b.uuid PathType.both) (settle soft_delete b db),
)

-- `soft_delete` is that of the backups of the node.
unfoldable pub finalize_backup : (Backup → Db → Db) → ℕ → Db → FinalizeEnd × Db
unfolding has_files_table finalize_found
finalize_backup soft_delete i db =
    if has_files_table db.node.type db.node.integration
    then finalize_found soft_delete (get_cloud_backup i db) db
    else (FinalizeEnd.params_not_provided, db)
