-- ===== src/Node/Resets.antt =====
-- The resets of CoreNode: what they leave in flight.
use backupsheep.Prelude.{
  ℕ, ◌≡◌, refl, false, Option, none, some, count, ◌∙◌, find?, count-update_out,
}
use backupsheep.Model.Status.{BackupStatus, in_active_statuses}
use backupsheep.Model.Rows.{Backup, Db, has_id, of_task, is_in_flight, set_status}
use backupsheep.Node.{
  save_backup, get_backup_from_celery_task_id, set_task_status, backup_retrying_reset, save_found,
  backup_complete_reset, activate,
}
use backupsheep.Node.Rows.{set_status-KeepsKeys, update-IsSerialized_done}
use backupsheep.Node.Holding.{
  IsSerializedDb, IsFree, Holds-IsFree, enter-Holds, own_row_alone, none_in_flight,
}

pub save_backup-IsSerialized_done :
    (i : ℕ) (s : BackupStatus) (db : Db)
    → in_active_statuses s ≡ false
    → IsSerializedDb db
    → IsSerializedDb (save_backup i (set_status s) db)
unfolding save_backup
save_backup-IsSerialized_done i s db done h =
    update-IsSerialized_done (set_status s) (set_status-KeepsKeys s) (has_id i) h (λ b. done)

-- A reset writes the row of the task.
pub set_task_status-found :
    (t : Option ℕ) (s : BackupStatus) (db : Db) (b : Backup)
    → get_backup_from_celery_task_id t db ≡ some b
    → set_task_status t s db ≡ save_backup b.id (set_status s) db
unfolding set_task_status save_found
set_task_status-found t s db b found = rw found

-- A reset to a status that is not in flight keeps the table serialized.
pub set_task_status-IsSerialized :
    (t : Option ℕ) (s : BackupStatus) (db : Db)
    → in_active_statuses s ≡ false
    → IsSerializedDb db
    → IsSerializedDb (set_task_status t s db)
unfolding set_task_status
set_task_status-IsSerialized t s db done h = found (get_backup_from_celery_task_id t db)
  where
    found : (b : Option Backup) → IsSerializedDb (save_found s db b)
    found none = h
    found (some b) = save_backup-IsSerialized_done b.id s db done h

-- After it nothing is in flight, where only the task had something in flight.
pub set_task_status-landed :
    (t : ℕ) (s : BackupStatus) (db : Db)
    → in_active_statuses s ≡ false
    → IsFree t db
    → count is_in_flight (set_task_status (some t) s db).backups ≡ 0
unfolding set_task_status get_backup_from_celery_task_id
set_task_status-landed t s db done h = found (find? (of_task (some t)) db.backups) refl
  where
    found :
        (b : Option Backup)
        → find? (of_task (some t)) db.backups ≡ b
        → count is_in_flight (save_found s db b).backups ≡ 0
    found none e = none_in_flight t db h.others e
    found (some b) e =
        unfold save_backup in
        (count-update_out is_in_flight (has_id b.id) (set_status s) db.backups (λ x. done)
          ∙ own_row_alone t db b h.serialized h.others e)

-- The reset for a retry puts the task's backup back in flight, and no other.
pub backup_retrying_reset-IsFree :
    (t : ℕ) (db : Db) → IsFree t db → IsFree t (backup_retrying_reset t db)
unfolding backup_retrying_reset get_backup_from_celery_task_id in_active_statuses
backup_retrying_reset-IsFree t db h = found (find? (of_task (some t)) db.backups) refl
  where
    found :
        (b : Option Backup)
        → find? (of_task (some t)) db.backups ≡ b
        → IsFree t (save_found BackupStatus.retrying db b)
    found none e = h
    found (some b) e = Holds-IsFree (
        enter-Holds t (set_status BackupStatus.retrying) db b (set_status-KeepsKeys _) (λ x. refl) h
          e)

-- Without a task the node alone is reset.
pub backup_complete_reset-none : (db : Db) → backup_complete_reset none db ≡ activate db
unfolding backup_complete_reset set_task_status get_backup_from_celery_task_id save_found
backup_complete_reset-none db = refl
