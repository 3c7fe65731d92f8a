-- ===== src/Deletion.antt =====
-- The clean-up tasks of apps/_tasks/helper/tasks.py on the backups of one node: `node_delete_requested`
-- and, for one node, `clean_delete_failed_backups`. The mirror cache of a website is left out.
pub mod Asked
use backupsheep.Prelude.{ℕ, Bool, true, false, not, List, [], ◌∷◌, filter, if◌then◌else◌}
use backupsheep.Model.Status.{BackupStatus, NodeStatus}
use backupsheep.Model.Rows.{Backup, Db}
use backupsheep.Retention.{order_by_created}

unfoldable pub is_delete_completed : BackupStatus → Bool
is_delete_completed BackupStatus.delete_completed = true
is_delete_completed _ = false

unfoldable pub node_is_delete_requested : NodeStatus → Bool
node_is_delete_requested NodeStatus.delete_requested = true
node_is_delete_requested _ = false

-- `~Q(status=DELETE_COMPLETED)`
abbrev pub not_deleted : Backup → Bool
not_deleted b = not (is_delete_completed b.status)

-- What a soft delete comes to: it returns, or it raises, with the rows as they then are.
pub data Attempt : Type 0 where
  returned raised : Db → Attempt

unfoldable pub after_attempt : Attempt → (Db → Attempt) → Attempt
after_attempt (Attempt.returned db) k = k db
after_attempt (Attempt.raised db) k = Attempt.raised db

-- The loop over the backups, which an exception leaves
unfoldable pub attempt_each : (Backup → Db → Attempt) → List Backup → Db → Attempt
unfolding after_attempt
attempt_each soft_delete [] db = Attempt.returned db
attempt_each soft_delete (b ∷ bs) db =
    after_attempt (soft_delete b db) (attempt_each soft_delete bs)

-- The loops over the schedules of the node; `false` is an exception, before any of them is deleted.
unfoldable pub drop_schedules : Bool → Db → Attempt
drop_schedules true db = Attempt.returned (record db { schedules = [] })
drop_schedules false db = Attempt.raised db

unfoldable pub empty_node : (Backup → Db → Attempt) → Bool → Db → Attempt
unfolding after_attempt attempt_each order_by_created drop_schedules
empty_node soft_delete unscheduled db =
    after_attempt (attempt_each soft_delete (order_by_created (filter not_deleted db.backups)) db)
      (drop_schedules unscheduled)

-- What becomes of the node: it stays as it is, it is deleted, and with it the rows that it then has, or
-- the task is run again after an exception.
pub data NodeEnd : Type 0 where
  kept deleted retried : Db → NodeEnd

unfoldable pub node_end : Attempt → NodeEnd
node_end (Attempt.returned db) = NodeEnd.deleted db
node_end (Attempt.raised db) = NodeEnd.retried db

unfoldable pub node_delete_requested : (Backup → Db → Attempt) → Bool → Db → NodeEnd
unfolding empty_node node_end
node_delete_requested soft_delete unscheduled db =
    if node_is_delete_requested db.node.status
    then node_end (empty_node soft_delete unscheduled db)
    else NodeEnd.kept db

-- The statuses of the five loops
unfoldable pub is_left_over : BackupStatus → Bool
is_left_over BackupStatus.delete_failed = true
is_left_over BackupStatus.delete_failed_not_found = true
is_left_over BackupStatus.delete_max_retry_failed = true
is_left_over BackupStatus.max_retry_failed = true
is_left_over BackupStatus.cancelled = true
is_left_over _ = false

-- What `clean_delete_failed_backups` does to the backups of a node.
unfoldable pub clean_delete_failed_backups : Db → Db
unfolding is_left_over
clean_delete_failed_backups db = record db {
  backups = filter (λ b. not (is_left_over b.status)) db.backups;
}
