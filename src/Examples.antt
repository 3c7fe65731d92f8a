-- ===== src/Examples.antt =====
-- Tables and calls for the tests: a website node and a cloud server of one account, each with a few
-- backups, one of which may be in flight.
pub mod Nodes
pub mod Tasks
pub mod Uploads
pub mod Restores
pub mod Members
pub mod Schedules
pub mod Invitations
pub mod Backends
pub mod Systems
pub mod Snapshots
pub mod Guards
pub mod Deletes
pub mod Dumps
use backupsheep.Prelude.{
  ℕ, zero, suc, ◌≡◌, refl, Bool, true, false, List, [], ◌∷◌, Option, none, some, ltb, arith, count,
}
use backupsheep.Model.Status.{
  BackupStatus, BackupType, PointStatus, NodeStatus, NodeType, ScheduleStatus, ConnectionStatus,
  AccountStatus, StorageStatus, Integration, StorageCode, in_active_statuses,
}
use backupsheep.Model.Rows.{StoragePoint, Backup, Schedule, Node, Storage, Db}
use backupsheep.Node.{Outside, Request}
use backupsheep.Node.Holding.{IsSerializedDb, Holds}
use backupsheep.Task.{Call}

-- Every storage validates; the requests may be retried as often as Celery is told.
abbrev pub outside : Outside
outside = record { slugify = λ t. t; storage_validates = λ s. true; may_retry = ltb }

abbrev pub point : StoragePoint
point = record {
  id = 5;
  storage_id = 3;
  storage_code = StorageCode.aws_s3;
  status = PointStatus.upload_ready;
  storage_file_id = none;
  celery_task_id = none;
}

-- A backup of the schedule 2 with this id, which is also its time, task and status.
abbrev pub backup : ℕ → ℕ → BackupStatus → List StoragePoint → Backup
backup i t s points = record {
  id = i;
  uuid = none;
  celery_task_id = some t;
  status = s;
  type = some BackupType.scheduled;
  attempt_no = some 1;
  schedule_id = some 2;
  notes = none;
  created = i;
  action_id = some (1 ∷ []);
  unique_id = some (1 ∷ []);
  storage_points = points;
}

-- The schedule keeps one backup.
abbrev pub nightly : Schedule
nightly = record {
  id = 2;
  status = ScheduleStatus.active;
  name = [];
  keep_last = some 1;
  storage_ids = 3 ∷ [];
}

abbrev pub db_of : NodeType → List Backup → Db
db_of type backups = record {
  node = record {
    id = 1;
    name = [];
    status = NodeStatus.active;
    type = type;
    integration = Integration.other;
  };
  connection_status = ConnectionStatus.active;
  account_id = 1;
  account_status = AccountStatus.active;
  schedules = nightly ∷ [];
  storages =
      (record { id = 3; account_id = 1; code = StorageCode.aws_s3; status = StorageStatus.active })
      ∷ [];
  backups = backups;
  next_backup_id = 30;
  next_point_id = 30;
  now = 100;
  outbox = [];
}

-- The backup 10 is complete, and the backup 11 of the task 7 is in flight.
abbrev pub old : Backup
old = backup 10 6 BackupStatus.complete []

abbrev pub running : Backup
running = backup 11 7 BackupStatus.in_progress (point ∷ [])

abbrev pub website : Db
website = db_of NodeType.website (old ∷ running ∷ [])

abbrev pub server : Db
server = db_of NodeType.cloud (old ∷ running ∷ [])

pub website-IsSerialized : IsSerializedDb website
unfolding count in_active_statuses
website-IsSerialized = record {
  one_in_flight = omega arith;
  ids = λ i. ground arith;
  tasks = λ t. ground arith;
  fresh = (omega arith, (omega arith, tt));
}

pub website-Holds : Holds 7 11 website
unfolding count in_active_statuses
website-Holds = record { serialized = website-IsSerialized; held = omega arith; own = refl }

pub server-Holds : Holds 7 11 server
unfolding count in_active_statuses
server-Holds = record { serialized = website-IsSerialized; held = omega arith; own = refl }

abbrev pub request_of : ℕ → Request
request_of t = record {
  task_id = t;
  retries = 1;
  backup_type = BackupType.scheduled;
  schedule_id = some 2;
  storage_ids = 3 ∷ [];
  notes = none;
}

abbrev pub call_of : ℕ → Call
call_of t = record {
  node_id = 1;
  task_id = t;
  retries = 4;
  schedule_id = some 2;
  storage_ids = 3 ∷ [];
  notes = none;
}
