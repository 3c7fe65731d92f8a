-- ===== src/Restore/Tasks/Waits.antt =====
-- A run of `poll_cloud_restore` in which the restore is in progress.
use backupsheep.Prelude.{ℕ, ◌-◌, ◌≡◌, refl, false, Option, some, ltb}
use backupsheep.Model.Status.{RestoreStatus}
use backupsheep.Restore.Tasks.{
  Restore, Restores, RestoreEnd, Notice, get_restore, tell, is_restore_over, restore_started,
  restore_polled, poll_restore_in_progress, poll_restore_answered, poll_restore_found,
  poll_cloud_restore,
}

-- Before the timeout it only queues itself again.
pub poll_cloud_restore-in_progress :
    (timeout i : ℕ) (answer : Option RestoreStatus) (started_at : Option ℕ) (db : Restores)
    (r : Restore)
    → get_restore i db ≡ some r
    → is_restore_over r.status ≡ false
    → restore_polled answer ≡ RestoreStatus.in_progress
    → ltb timeout (db.now - restore_started started_at db) ≡ false
    → poll_cloud_restore timeout answer i started_at db
      ≡ (RestoreEnd.polls (some (restore_started started_at db)), tell (Notice.poll_later i) db)
unfolding poll_cloud_restore poll_restore_found poll_restore_answered poll_restore_in_progress
poll_cloud_restore-in_progress timeout i answer started_at db r found unended waiting early =
    rw found (rw unended (rw waiting (rw early refl)))
