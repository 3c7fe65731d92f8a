-- ===== src/Restore/Tasks.antt =====
-- The restore tasks of apps/_tasks/integration/restore.py. The tables of restores are one, whose rows
-- the ids name.
pub mod Outcome
pub mod Waits
use backupsheep.Prelude.{
  ℕ, zero, suc, ◌+◌, ◌-◌, Bool, true, false, List, [], ◌∷◌, ◌++◌, Option, none, some, ◌==◌, ltb,
  if◌then◌else◌, find?, update,
}
use backupsheep.Prelude.Text.{codes}
use backupsheep.Model.Status.{RestoreStatus}
use backupsheep.Model.Rows.{Text}

-- CoreCloudRestore, CoreWebsiteRestore and CoreDatabaseRestore
pub record Restore : Type 0 where
  pub id : ℕ
  pub status : RestoreStatus
  pub error : Option Text
  pub resource_id : Option Text
  pub celery_task_id : Option ℕ

-- What the tasks tell the members, and the first and the next status checks.
pub data Notice : Type 0 where
  notify_restore_started notify_restore_completed notify_restore_failed poll_later : ℕ → Notice

pub record Restores : Type 0 where
  pub rows : List Restore
  pub now : ℕ
  pub notices : List Notice

pub data RestoreEnd : Type 0 where
  over does_not_exist crashed : RestoreEnd
  polls : Option ℕ → RestoreEnd

abbrev pub restore_id : ℕ → Restore → Bool
restore_id i r = r.id == i

unfoldable pub get_restore : ℕ → Restores → Option Restore
get_restore i db = find? (restore_id i) db.rows

-- `restore.save()`
unfoldable pub save_restore : ℕ → (Restore → Restore) → Restores → Restores
save_restore i f db = record db { rows = update (restore_id i) f db.rows }

abbrev pub tell : Notice → Restores → Restores
tell n db = record db { notices = db.notices ++ n ∷ [] }

-- The status FAILED with the text of the error
fail_with : Option Text → Restore → Restore
fail_with e r = record r { status = RestoreStatus.failed; error = e }

failed : ℕ → Option Text → Restores → Restores
unfolding save_restore fail_with
failed i e db = tell (Notice.notify_restore_failed i) (save_restore i (fail_with e) db)

completed : ℕ → Restores → Restores
unfolding save_restore
completed i db =
    tell (Notice.notify_restore_completed i)
      (save_restore i (λ r. record r { status = RestoreStatus.complete }) db)

-- The row as the task begins it
begin_restore : ℕ → ℕ → Restores → Restores
unfolding save_restore
begin_restore i task db = tell (Notice.notify_restore_started i) (
    save_restore i
      (λ r. record r { status = RestoreStatus.in_progress; celery_task_id = some task }) db)

after_engine : ℕ → Option Text → Restores → Restores
unfolding failed completed
after_engine i none db = completed i db
after_engine i (some e) db = failed i (some e) db

restore_found : ℕ → ℕ → Option Text → Restores → Option Restore → RestoreEnd × Restores
unfolding begin_restore after_engine
restore_found i task engine db none = (RestoreEnd.does_not_exist, db)
restore_found i task engine db (some r) =
    (RestoreEnd.over, after_engine i engine (begin_restore i task db))

-- restore_website_backup, where the restore engine raises `engine` or returns
unfoldable pub restore_website_backup : ℕ → ℕ → Option Text → Restores → RestoreEnd × Restores
unfolding restore_found
restore_website_backup i task engine db = restore_found i task engine db (get_restore i db)

-- restore_database_backup is the same code on the other engine.
unfoldable pub restore_database_backup : ℕ → ℕ → Option Text → Restores → RestoreEnd × Restores
unfolding restore_found
restore_database_backup i task engine db = restore_found i task engine db (get_restore i db)

-- What the provider's `restore_snapshot` does: it raises, or saves the id of the new resource.
pub data Created : Type 0 where
  raises : Text → Created
  creates : Text → Created

after_snapshot : Bool → ℕ → Created → Restores → RestoreEnd × Restores
unfolding failed save_restore
after_snapshot broker i (raises e) db = (RestoreEnd.over, failed i (some e) db)
after_snapshot broker i (creates resource) db =
    let db' = save_restore i (λ r. record r { resource_id = some resource }) db in
    if broker
    then (RestoreEnd.polls none, tell (Notice.poll_later i) db')
    else (RestoreEnd.crashed, db')

restore_cloud_found : Bool → ℕ → ℕ → Created → Restores → Option Restore → RestoreEnd × Restores
unfolding save_restore after_snapshot
restore_cloud_found broker i task created db none = (RestoreEnd.does_not_exist, db)
restore_cloud_found broker i task created db (some r) = after_snapshot broker i created (
    tell (Notice.notify_restore_started i)
      (save_restore i (λ x. record x { celery_task_id = some task }) db))

unfoldable pub restore_cloud_backup : Bool → ℕ → ℕ → Created → Restores → RestoreEnd × Restores
unfolding restore_cloud_found
restore_cloud_backup broker i task created db =
    restore_cloud_found broker i task created db (get_restore i db)

-- The text of the error after the timeout
abbrev pub timed_out : Text
timed_out = codes "Timed out waiting for the restored resource to become ready."

poll_restore_in_progress : ℕ → ℕ → ℕ → Restores → RestoreEnd × Restores
unfolding failed
poll_restore_in_progress timeout started_at i db =
    if ltb timeout (db.now - started_at)
    then (RestoreEnd.over, failed i (some timed_out) db)
    else (RestoreEnd.polls (some started_at), tell (Notice.poll_later i) db)

poll_restore_answered : ℕ → ℕ → RestoreStatus → ℕ → Restore → Restores → RestoreEnd × Restores
unfolding failed completed poll_restore_in_progress
poll_restore_answered timeout started_at RestoreStatus.complete i r db =
    (RestoreEnd.over, completed i db)
poll_restore_answered timeout started_at RestoreStatus.failed i r db =
    (RestoreEnd.over, failed i r.error db)
poll_restore_answered timeout started_at _ i r db = poll_restore_in_progress timeout started_at i db

-- `restore.status in (COMPLETE, FAILED)`
unfoldable pub is_restore_over : RestoreStatus → Bool
is_restore_over RestoreStatus.complete = true
is_restore_over RestoreStatus.failed = true
is_restore_over _ = false

-- `started_at`, or the time of this run
abbrev pub restore_started : Option ℕ → Restores → ℕ
restore_started none db = db.now
restore_started (some s) db = s

-- `restore.poll_status()`; an exception counts as a restore in progress
abbrev pub restore_polled : Option RestoreStatus → RestoreStatus
restore_polled none = RestoreStatus.in_progress
restore_polled (some s) = s

poll_restore_found :
    ℕ → Option RestoreStatus → ℕ → Option ℕ → Restores → Option Restore → RestoreEnd × Restores
unfolding is_restore_over poll_restore_answered
poll_restore_found timeout answer i started_at db none = (RestoreEnd.over, db)
poll_restore_found timeout answer i started_at db (some r) =
    if is_restore_over r.status
    then (RestoreEnd.over, db)
    else poll_restore_answered timeout (restore_started started_at db) (restore_polled answer) i r
        db

-- One run of poll_cloud_restore
unfoldable pub poll_cloud_restore :
    ℕ → Option RestoreStatus → ℕ → Option ℕ → Restores → RestoreEnd × Restores
unfolding poll_restore_found
poll_cloud_restore timeout answer i started_at db =
    poll_restore_found timeout answer i started_at db (get_restore i db)

-- The next run, `interval` seconds after this one or `delay` later
poll_restore_next :
    (Option ℕ → Restores → Option Restores) → ℕ → RestoreEnd × Restores → Option Restores
poll_restore_next again seconds (RestoreEnd.polls s, db) =
    again s (record db { now = db.now + seconds })
poll_restore_next again seconds (_, db) = some db

-- The runs of one restore, at most so many; in the run at time `t` the provider answers `answer t`.
unfoldable pub poll_restore_until :
    ℕ → ℕ → ℕ → (ℕ → ℕ) → (ℕ → Option RestoreStatus) → ℕ → Option ℕ → Restores → Option Restores
unfolding poll_cloud_restore poll_restore_next
poll_restore_until zero interval timeout delay answer i started_at db = none
poll_restore_until (suc n) interval timeout delay answer i started_at db =
    poll_restore_next (poll_restore_until n interval timeout delay answer i)
      (interval + delay db.now) (poll_cloud_restore timeout (answer db.now) i started_at db)
