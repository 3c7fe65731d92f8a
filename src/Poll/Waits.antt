-- ===== src/Poll/Waits.antt =====
-- A run of `poll_cloud_backup` in which the snapshot is in progress.
use backupsheep.Prelude.{ℕ, ◌-◌, ◌≡◌, refl, false, Option, some, ltb, find?}
use backupsheep.Model.Status.{BackupStatus, in_terminal}
use backupsheep.Model.Rows.{Backup, Db, Message, has_id}
use backupsheep.Node.{send, get_cloud_backup}
use backupsheep.Poll.{
  PollEnd, started, poll_cloud_backup, poll_found, poll_answered, poll_in_progress,
}

-- Before the timeout it only queues itself again.
pub poll_cloud_backup-in_progress :
    (soft_delete : Backup → Db → Db) (timeout i : ℕ) (started_at : Option ℕ) (db : Db) (b : Backup)
    → find? (has_id i) db.backups ≡ some b
    → in_terminal b.status ≡ false
    → ltb timeout (db.now - started started_at db) ≡ false
    → poll_cloud_backup soft_delete timeout (some BackupStatus.in_progress) i started_at db
      ≡ (PollEnd.requeued (started started_at db), send (Message.poll_cloud_backup b.id) db)
unfolding poll_cloud_backup poll_found poll_answered poll_in_progress get_cloud_backup
poll_cloud_backup-in_progress soft_delete timeout i started_at db b found unended early =
    rw found (rw unended (rw early refl))
