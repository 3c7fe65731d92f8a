-- ===== src/Poll.antt =====
-- The task `poll_cloud_backup` of apps/_tasks/helper/tasks.py, which waits for the snapshot of a
-- provider in one status check per run, and puts itself back into the queue in between.
pub mod Landing
pub mod Liveness
pub mod Serialized
pub mod Waits
use backupsheep.Prelude.{
  ℕ, zero, suc, ◌+◌, ◌-◌, Bool, true, false, Option, none, some, ltb, if◌then◌else◌,
}
use backupsheep.Model.Status.{BackupStatus, in_terminal}
use backupsheep.Model.Rows.{Backup, Error, Message, Db, set_status}
use backupsheep.Node.{
  send, save_backup, get_cloud_backup, activate, backup_complete_reset, backup_timeout_reset,
}
use backupsheep.Retention.{retain}

-- The end of one run: it is over, or the task is queued again with the time of the first run.
pub data PollEnd : Type 0 where
  over : PollEnd
  requeued : ℕ → PollEnd

-- `backup.poll_status()`; an exception counts as a snapshot in progress
abbrev pub polled : Option BackupStatus → BackupStatus
polled none = BackupStatus.in_progress
polled (some s) = s

-- `started_at`, or the time of this run
abbrev pub started : Option ℕ → Db → ℕ
started none db = db.now
started (some s) db = s

notify_fail : Error → Backup → Db → Db
notify_fail e b db = send (Message.notify_backup_fail e b.type) db

-- The provider has the snapshot: the backup is complete, and its schedule keeps what it is to keep.
poll_complete : (Backup → Db → Db) → Backup → Db → Db
unfolding backup_complete_reset retain
poll_complete soft_delete b db =
    send (Message.notify_backup_success b.id)
      (retain soft_delete b (backup_complete_reset b.celery_task_id db))

-- The provider gave up on the snapshot.
poll_failed : Backup → Db → Db
unfolding save_backup activate notify_fail
poll_failed b db =
    notify_fail Error.node_backup_failed b
      (activate (save_backup b.id (set_status BackupStatus.failed) db))

poll_in_progress : ℕ → ℕ → Backup → Db → PollEnd × Db
unfolding backup_timeout_reset notify_fail
poll_in_progress timeout started_at b db =
    if ltb timeout (db.now - started_at)
    then (
      PollEnd.over,
      notify_fail Error.node_backup_timeout b (backup_timeout_reset b.celery_task_id db),
    )
    else (PollEnd.requeued started_at, send (Message.poll_cloud_backup b.id) db)

poll_answered : (Backup → Db → Db) → ℕ → ℕ → BackupStatus → Backup → Db → PollEnd × Db
unfolding poll_complete poll_failed poll_in_progress
poll_answered soft_delete timeout started_at BackupStatus.complete b db =
    (PollEnd.over, poll_complete soft_delete b db)
poll_answered soft_delete timeout started_at BackupStatus.failed b db =
    (PollEnd.over, poll_failed b db)
poll_answered soft_delete timeout started_at _ b db = poll_in_progress timeout started_at b db

poll_found :
    (Backup → Db → Db) → ℕ → Option BackupStatus → Option ℕ → Db → Option Backup → PollEnd × Db
unfolding poll_answered
poll_found soft_delete timeout answer started_at db none = (PollEnd.over, db)
poll_found soft_delete timeout answer started_at db (some b) =
    if in_terminal b.status
    then (PollEnd.over, db)
    else poll_answered soft_delete timeout (started started_at db) (polled answer) b db

-- One run; `answer` is what the provider says in it.
unfoldable pub poll_cloud_backup :
    (Backup → Db → Db) → ℕ → Option BackupStatus → ℕ → Option ℕ → Db → PollEnd × Db
unfolding poll_found
poll_cloud_backup soft_delete timeout answer i started_at db =
    poll_found soft_delete timeout answer started_at db (get_cloud_backup i db)

-- The queue takes the task up again `interval` seconds after the run, or `delay` later.
abbrev pub wait : ℕ → Db → Db
wait seconds db = record db { now = db.now + seconds }

-- What a run leads to.
poll_next : (ℕ → Db → Option Db) → ℕ → PollEnd × Db → Option Db
poll_next again seconds (PollEnd.over, db) = some db
poll_next again seconds (PollEnd.requeued s, db) = again s (wait seconds db)

-- The runs of one snapshot, at most so many; in the run at time `t` the provider answers `answer t`,
-- and the queue is late by `delay t`.
unfoldable pub poll_until :
    ℕ
    → (Backup → Db → Db)
    → ℕ
    → ℕ
    → (ℕ → ℕ)
    → (ℕ → Option BackupStatus)
    → ℕ
    → Option ℕ
    → Db
    → Option Db
unfolding poll_cloud_backup poll_next
poll_until zero soft_delete interval timeout delay answer i started_at db = none
poll_until (suc n) soft_delete interval timeout delay answer i started_at db =
    poll_next (λ s. poll_until n soft_delete interval timeout delay answer i (some s))
      (interval + delay db.now)
      (poll_cloud_backup soft_delete timeout (answer db.now) i started_at db)
