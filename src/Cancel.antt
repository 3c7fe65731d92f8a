-- ===== src/Cancel.antt =====
-- The `cancel` methods of the backups, apps/console/backup/models.py.
pub mod Freed
pub mod Serialized
use backupsheep.Prelude.{ℕ, Bool, true, false, List, [], ◌∷◌, Option, none, some, if◌then◌else◌}
use backupsheep.Model.Status.{BackupStatus, PointStatus}
use backupsheep.Model.Rows.{StoragePoint, Backup, Message, PathType, Db, set_status}
use backupsheep.Node.{send, save_backup, backup_complete_reset}

-- The methods of the providers' backups: CoreDigitalOceanBackup.cancel and the eleven others
unfoldable pub cloud_cancel : Backup → Db → Db
unfolding save_backup backup_complete_reset
cloud_cancel b db = backup_complete_reset none (
    save_backup b.id (set_status BackupStatus.cancelled)
      (send (Message.revoke b.celery_task_id) db))

-- The storage points after the loop; one whose `save` raises an IntegrityError, which `saves` denies,
-- is deleted.
cancel_points : (ℕ → Bool) → List StoragePoint → List StoragePoint
cancel_points saves [] = []
cancel_points saves (p ∷ ps) =
    let rest = cancel_points saves ps in
    if saves p.id then (record p { status = PointStatus.cancelled }) ∷ rest else rest

revoke_point : Bool → StoragePoint → Db → Db
revoke_point true p db = send (Message.revoke p.celery_task_id) db
revoke_point false p db = db

revoke_points : (ℕ → Bool) → List StoragePoint → Db → Db
unfolding revoke_point
revoke_points saves [] db = db
revoke_points saves (p ∷ ps) db = revoke_points saves ps (revoke_point (saves p.id) p db)

cancelled_row : (ℕ → Bool) → Backup → Backup
unfolding cancel_points
cancelled_row saves b = record b {
  status = BackupStatus.cancelled;
  storage_points = cancel_points saves b.storage_points;
}

-- CoreWebsiteBackup.cancel
unfoldable pub website_cancel : (ℕ → Bool) → Backup → Db → Db
unfolding save_backup cancelled_row revoke_points backup_complete_reset
website_cancel saves b db = backup_complete_reset none (
    send (Message.delete_from_disk b.uuid PathType.both) (
      save_backup b.id (cancelled_row saves)
        (revoke_points saves b.storage_points (send (Message.revoke b.celery_task_id) db))))

-- CoreWordPressBackup.cancel, CoreBasecampBackup.cancel and CoreDatabaseBackup.cancel, in which no
-- error of a `save` is caught; none is raised here.
unfoldable pub files_cancel : Backup → Db → Db
unfolding website_cancel
files_cancel = website_cancel (λ p. true)
