-- ===== src/Task.antt =====
-- What the backup tasks of apps/_tasks/integration share: the arguments of a call, the checks before
-- the backup starts, and the handlers of what the backup raises.
pub mod Files
pub mod Clouds
pub mod Ends
use backupsheep.Prelude.{
  ℕ, Bool, true, false, ◌&&◌, List, Option, none, some, ◌==◌, if◌then◌else◌, any,
}
use backupsheep.Model.Status.{
  BackupType, NodeStatus, ConnectionStatus, AccountStatus, schedule_is_active,
}
use backupsheep.Model.Rows.{Text, Backup, Schedule, Error, PathType, Message, Db}
use backupsheep.Node.{
  Outside, Request, Initiated, send, get_cloud_backup, backup_initiate, backup_timeout_reset,
  backup_retrying_reset, backup_max_retries_reached,
}

-- A call of a backup task: its arguments, and the id and the retries of `self.request`.
pub record Call : Type 0 where
  pub node_id : ℕ
  pub task_id : ℕ
  pub retries : ℕ
  pub schedule_id : Option ℕ
  pub storage_ids : List ℕ
  pub notes : Option Text

-- `max_retries` of every backup task
abbrev pub max_retries : ℕ
max_retries = 4

unfoldable pub backup_type : Option ℕ → BackupType
backup_type none = BackupType.on_demand
backup_type (some s) = BackupType.scheduled

-- An on-demand backup needs no schedule, a scheduled one an active schedule.
unfoldable pub schedule_check : Option ℕ → List Schedule → Bool
schedule_check none schedules = true
schedule_check (some s) schedules =
    any (λ row. row.id == s && schedule_is_active row.status) schedules

node_allows : NodeStatus → Bool
node_allows NodeStatus.delete_requested = false
node_allows NodeStatus.paused = false
node_allows _ = true

connection_allows : ConnectionStatus → Bool
connection_allows ConnectionStatus.delete_requested = false
connection_allows ConnectionStatus.paused = false
connection_allows _ = true

account_allows : AccountStatus → Bool
account_allows AccountStatus.delete_requested = false
account_allows _ = true

-- `CoreNode.objects.filter(query).exists() and schedule_check`
unfoldable pub may_run : Call → Db → Bool
unfolding schedule_check node_allows connection_allows account_allows
may_run c db =
    (c.node_id == db.node.id
      && (node_allows db.node.status
          && (connection_allows db.connection_status && account_allows db.account_status)))
    && schedule_check c.schedule_id db.schedules

unfoldable pub request : Call → Request
unfolding backup_type
request c = record {
  task_id = c.task_id;
  retries = c.retries;
  backup_type = backup_type c.schedule_id;
  schedule_id = c.schedule_id;
  storage_ids = c.storage_ids;
  notes = c.notes;
}

-- How the `try` block of a task ends; `raised` keeps the backup that the handlers see.
pub data Body : Type 0 where
  returned : Body
  finished : Body
  raised : Error → Option ℕ → Body

-- How the task itself ends. `crashed` is MaxRetriesExceededError that nothing catches.
pub data TaskEnd : Type 0 where
  done retrying gave_up timed_out crashed : TaskEnd

-- `try: raise self.retry() except MaxRetriesExceededError: node.backup_max_retries_reached(…)`
unfoldable pub retry_or_give_up : Outside → Request → Db → TaskEnd × Db
retry_or_give_up o r db =
    if o.may_retry r.retries max_retries
    then (TaskEnd.retrying, db)
    else (TaskEnd.gave_up, backup_max_retries_reached r.task_id db)

unfoldable pub notify_and_reset : Request → Error → Db → Db
notify_and_reset r e db =
    backup_retrying_reset r.task_id (send (Message.notify_backup_fail e (some r.backup_type)) db)

unfoldable pub on_error : Outside → Request → Error → Db → TaskEnd × Db
unfolding retry_or_give_up notify_and_reset
on_error o r e db = retry_or_give_up o r (notify_and_reset r e db)

unfoldable pub on_timeout : Request → Error → Db → TaskEnd × Db
on_timeout r e db = (
  TaskEnd.timed_out,
  backup_timeout_reset (some r.task_id)
      (send (Message.notify_backup_fail e (some r.backup_type)) db),
)
