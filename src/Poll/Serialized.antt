-- ===== src/Poll/Serialized.antt =====
-- `poll_cloud_backup` and the table of the node.
use backupsheep.Prelude.{ℕ, ◌-◌, refl, Option, none, some, ltb, Bool-cases, inl, inr}
use backupsheep.Model.Status.{BackupStatus, in_terminal, in_active_statuses}
use backupsheep.Model.Rows.{Backup, Db}
use backupsheep.Node.{activate, get_cloud_backup, backup_complete_reset, backup_timeout_reset}
use backupsheep.Node.Holding.{IsSerializedDb}
use backupsheep.Node.Resets.{save_backup-IsSerialized_done, set_task_status-IsSerialized}
use backupsheep.Retention.Serialized.{KeepsSerialized, retain-IsSerialized}
use backupsheep.Poll.{
  polled, started, notify_fail, poll_complete, poll_failed, poll_in_progress, poll_answered,
  poll_found, poll_cloud_backup,
}

activate-IsSerialized : (db : Db) → IsSerializedDb db → IsSerializedDb (activate db)
unfolding activate
activate-IsSerialized db h = h

in_progress-IsSerialized :
    (timeout s : ℕ) (b : Backup) (db : Db)
    → IsSerializedDb db
    → IsSerializedDb (poll_in_progress timeout s b db).1
unfolding poll_in_progress notify_fail backup_timeout_reset in_active_statuses
in_progress-IsSerialized timeout s b db h = elim (Bool-cases (ltb timeout (db.now - s))) [
  | inl e ↦ rw e (
      set_task_status-IsSerialized b.celery_task_id BackupStatus.timeout (activate db) refl
        (activate-IsSerialized db h))
  | inr e ↦ rw e h
]

module _ (soft_delete : Backup → Db → Db) (k : KeepsSerialized soft_delete) where
  answered-IsSerialized :
      (timeout s : ℕ) (a : BackupStatus) (b : Backup) (db : Db)
      → IsSerializedDb db
      → IsSerializedDb (poll_answered soft_delete timeout s a b db).1
  unfolding poll_answered poll_complete poll_failed notify_fail backup_complete_reset
      in_active_statuses activate
  answered-IsSerialized timeout s BackupStatus.complete b db h =
      retain-IsSerialized soft_delete k b _ (
        set_task_status-IsSerialized b.celery_task_id BackupStatus.complete (activate db) refl
          (activate-IsSerialized db h))
  answered-IsSerialized timeout s BackupStatus.failed b db h =
      save_backup-IsSerialized_done b.id BackupStatus.failed db refl h
  answered-IsSerialized timeout s _ b db h = in_progress-IsSerialized timeout s b db h

  pub poll_cloud_backup-IsSerialized :
      (timeout : ℕ) (answer : Option BackupStatus) (i : ℕ) (started_at : Option ℕ) (db : Db)
      → IsSerializedDb db
      → IsSerializedDb (poll_cloud_backup soft_delete timeout answer i started_at db).1
  unfolding poll_cloud_backup poll_found
  poll_cloud_backup-IsSerialized timeout answer i started_at db h = go (get_cloud_backup i db)
    where
      go :
          (b : Option Backup)
          → IsSerializedDb (poll_found soft_delete timeout answer started_at db b).1
      go none = h
      go (some b) = elim (Bool-cases (in_terminal b.status)) [
        | inl e ↦ rw e h
        | inr e ↦
            rw e (answered-IsSerialized timeout (started started_at db) (polled answer) b db h)
      ]
