-- ===== src/Model/Rows.antt =====
-- The rows that the tasks of one node read and write, and the messages that they send to other
-- tasks, to the members and to the log. A Celery task id is a number, and so is a time (in seconds);
-- a text is its list of code points.
use backupsheep.Prelude.{ℕ, Bool, List, Option, ◌==◌, ◌==?◌}
use backupsheep.Model.Status.{
  BackupStatus, BackupType, PointStatus, NodeStatus, NodeType, ScheduleStatus, ConnectionStatus,
  AccountStatus, StorageStatus, Integration, StorageCode, in_active_statuses, is_complete,
  is_upload_complete,
}

abbrev pub Text : Type 0
Text = List ℕ

-- A row of a `…BackupStoragePoints` table, of the backup that holds it.
pub record StoragePoint : Type 0 where
  pub id : ℕ
  pub storage_id : ℕ
  pub storage_code : StorageCode
  pub status : PointStatus
  pub storage_file_id : Option Text
  pub celery_task_id : Option ℕ

-- A row of one of the backup tables (UtilBackup and the columns that its subclasses add).
pub record Backup : Type 0 where
  pub id : ℕ
  pub uuid : Option Text
  pub celery_task_id : Option ℕ
  pub status : BackupStatus
  pub type : Option BackupType
  pub attempt_no : Option ℕ
  pub schedule_id : Option ℕ
  pub notes : Option Text
  pub created : ℕ
  pub action_id : Option Text
  pub unique_id : Option Text
  pub storage_points : List StoragePoint

-- CoreSchedule: what the backup tasks read of it.
pub record Schedule : Type 0 where
  pub id : ℕ
  pub status : ScheduleStatus
  pub name : Text
  pub keep_last : Option ℕ
  pub storage_ids : List ℕ

pub record Node : Type 0 where
  pub id : ℕ
  pub name : Text
  pub status : NodeStatus
  pub type : NodeType
  pub integration : Integration

pub record Storage : Type 0 where
  pub id : ℕ
  pub account_id : ℕ
  pub code : StorageCode
  pub status : StorageStatus

-- What a backup task may raise.
pub data Error : Type 0 where
  node_not_ready connection_not_ready connection_validation_failed : Error
  integration_validation soft_time_limit_exceeded node_backup_timeout : Error
  node_backup_failed multiple_objects_returned does_not_exist task_params_not_provided : Error
  other : Error

-- `path_type` of `delete_from_disk`
pub data PathType : Type 0 where
  dir zip both : PathType

pub data Message : Type 0 where
  notify_backup_fail : Error → Option BackupType → Message
  notify_backup_success : ℕ → Message
  notify_storage_validation_fail : ℕ → ℕ → Message
  notify_upload_fail : ℕ → ℕ → Message
  backup_log : ℕ → Message
  storage_log : ℕ → ℕ → Message
  upload_chord : ℕ → List ℕ → Message
  finalize_backup : ℕ → Message
  poll_cloud_backup : ℕ → Message
  delete_from_disk : Option Text → PathType → Message
  send_task : ℕ → ℕ → List ℕ → Message
  revoke : Option ℕ → Message

-- One node with its connection, its account and its backups.
pub record Db : Type 0 where
  pub node : Node
  pub connection_status : ConnectionStatus
  pub account_id : ℕ
  pub account_status : AccountStatus
  pub schedules : List Schedule
  pub storages : List Storage
  pub backups : List Backup
  pub next_backup_id : ℕ
  pub next_point_id : ℕ
  pub now : ℕ
  pub outbox : List Message

-- Queries on the backups of the node.
abbrev pub has_id : ℕ → Backup → Bool
has_id i b = b.id == i

abbrev pub of_task : Option ℕ → Backup → Bool
of_task t b = b.celery_task_id ==? t

abbrev pub is_in_flight : Backup → Bool
is_in_flight b = in_active_statuses b.status

abbrev pub is_completed : Backup → Bool
is_completed b = is_complete b.status

abbrev pub is_uploaded : StoragePoint → Bool
is_uploaded p = is_upload_complete p.status

abbrev pub set_status : BackupStatus → Backup → Backup
set_status s b = record b { status = s }
