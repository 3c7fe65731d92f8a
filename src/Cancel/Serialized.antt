-- ===== src/Cancel/Serialized.antt =====
-- The `cancel` methods and the table of the node.
use backupsheep.Prelude.{ℕ, refl, Bool, true, false, List, [], ◌∷◌}
use backupsheep.Model.Status.{BackupStatus, in_active_statuses}
use backupsheep.Model.Rows.{StoragePoint, Backup, Message, Db, has_id}
use backupsheep.Node.{send, save_backup, activate}
use backupsheep.Node.Rows.{update-IsSerialized_done}
use backupsheep.Node.Holding.{IsSerializedDb}
use backupsheep.Node.Resets.{backup_complete_reset-none, save_backup-IsSerialized_done}
use backupsheep.Cancel.{
  cloud_cancel, revoke_point, revoke_points, cancelled_row, website_cancel, files_cancel,
}

revoke_point-IsSerialized :
    (saved : Bool) (p : StoragePoint) (db : Db)
    → IsSerializedDb db
    → IsSerializedDb (revoke_point saved p db)
unfolding revoke_point
revoke_point-IsSerialized true p db h = h
revoke_point-IsSerialized false p db h = h

revoke_points-IsSerialized :
    (saves : ℕ → Bool) (ps : List StoragePoint) (db : Db)
    → IsSerializedDb db
    → IsSerializedDb (revoke_points saves ps db)
unfolding revoke_points
revoke_points-IsSerialized saves [] db h = h
revoke_points-IsSerialized saves (p ∷ ps) db h =
    revoke_points-IsSerialized saves ps _ (revoke_point-IsSerialized (saves p.id) p db h)

pub website_cancel-IsSerialized :
    (saves : ℕ → Bool) (b : Backup) (db : Db)
    → IsSerializedDb db
    → IsSerializedDb (website_cancel saves b db)
unfolding website_cancel save_backup cancelled_row in_active_statuses activate
website_cancel-IsSerialized saves b db h = rw (backup_complete_reset-none _) (
    update-IsSerialized_done (cancelled_row saves) (record { id = λ x. refl; task = λ x. refl })
      (has_id b.id) (revoke_points-IsSerialized saves b.storage_points _ h) (λ x. refl))

pub files_cancel-IsSerialized :
    (b : Backup) (db : Db) → IsSerializedDb db → IsSerializedDb (files_cancel b db)
unfolding files_cancel
files_cancel-IsSerialized = website_cancel-IsSerialized (λ p. true)

pub cloud_cancel-IsSerialized :
    (b : Backup) (db : Db) → IsSerializedDb db → IsSerializedDb (cloud_cancel b db)
unfolding cloud_cancel in_active_statuses activate
cloud_cancel-IsSerialized b db h = rw (backup_complete_reset-none _) (
    save_backup-IsSerialized_done b.id BackupStatus.cancelled
      (send (Message.revoke b.celery_task_id) db) refl h)
