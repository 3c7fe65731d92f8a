-- ===== src/Node.antt =====
-- The backup methods of CoreNode, apps/console/node/models.py. `celery_task_id` is distinct on the
-- backups of a node, so `get` on it finds at most one.
pub mod Name
pub mod Rows
pub mod Holding
pub mod Guard
pub mod Initiate
pub mod Resets
pub mod Free
use backupsheep.Prelude.{
  ℕ, ◌+◌, ◌-◌, ◌*◌, ◌/◌, Bool, true, false, not, ◌&&◌, ◌||◌, List, [], ◌∷◌, ◌++◌, Option, none,
  some, ◌==◌, leb, if◌then◌else◌, any, filter, find?, update,
}
use backupsheep.Model.Status.{
  BackupStatus, BackupType, PointStatus, NodeStatus, NodeType, is_complete, storage_is_active,
}
use backupsheep.Model.Rows.{
  Text, StoragePoint, Backup, Schedule, Storage, Error, Message, Db, has_id, of_task, is_in_flight,
  set_status,
}
use Name.{backup_uuid, type_display}

-- What a task cannot compute: Django's `slugify`, whether a storage answers its validation, and
-- whether Celery's `retry` of a request after so many retries, of at most so many, schedules one more
-- (else it raises MaxRetriesExceededError).
pub record Outside : Type 0 where
  pub slugify : Text → Text
  pub storage_validates : ℕ → Bool
  pub may_retry : ℕ → ℕ → Bool

abbrev pub send : Message → Db → Db
send m db = record db { outbox = db.outbox ++ m ∷ [] }

-- `backup.save()` after a change `f` of the row with this id
unfoldable pub save_backup : ℕ → (Backup → Backup) → Db → Db
save_backup i f db = record db { backups = update (has_id i) f db.backups }

-- `get_backup_from_celery_task_id`: nothing for `None`
unfoldable pub get_backup_from_celery_task_id : Option ℕ → Db → Option Backup
get_backup_from_celery_task_id none db = none
get_backup_from_celery_task_id (some t) db = find? (of_task (some t)) db.backups

unfoldable pub get_cloud_backup : ℕ → Db → Option Backup
get_cloud_backup i db = find? (has_id i) db.backups

-- An in-flight backup of another task.
unfoldable pub active_backup : ℕ → Db → Option Backup
active_backup t db = find? (λ b. is_in_flight b && not (of_task (some t) b)) db.backups

-- A row with the defaults of its columns
new_backup : ℕ → Db → Backup
new_backup t db = record {
  id = db.next_backup_id;
  uuid = none;
  celery_task_id = some t;
  status = BackupStatus.complete;
  type = none;
  attempt_no = none;
  schedule_id = none;
  notes = none;
  created = db.now;
  action_id = none;
  unique_id = none;
  storage_points = [];
}

insert_backup : Backup → Db → Db
insert_backup b db = record db {
  backups = db.backups ++ b ∷ [];
  next_backup_id = db.next_backup_id + 1;
}

create_if_missing : ℕ → Db → Option Backup → Db × Backup × Bool
unfolding new_backup insert_backup
create_if_missing t db (some b) = (db, b, false)
create_if_missing t db none = (insert_backup (new_backup t db) db, new_backup t db, true)

-- `get_or_create` of the row for the task, and whether it is new
unfoldable pub get_or_create : ℕ → Db → Db × Backup × Bool
unfolding create_if_missing
get_or_create t db = create_if_missing t db (find? (of_task (some t)) db.backups)

pub data Initiated : Type 0 where
  blocked : Initiated
  raised : Error → Initiated
  started : ℕ → Initiated

-- The arguments of a backup task that reach `backup_initiate`.
pub record Request : Type 0 where
  pub task_id : ℕ
  pub retries : ℕ
  pub backup_type : BackupType
  pub schedule_id : Option ℕ
  pub storage_ids : List ℕ
  pub notes : Option Text

-- The fields that every attempt writes.
unfoldable pub fill : Request → Backup → Backup
fill r b = record b {
  status = BackupStatus.in_progress;
  type = some r.backup_type;
  attempt_no = some (r.retries + 1);
  schedule_id = r.schedule_id;
  notes = r.notes;
}

-- The schedule's name, where the request has a schedule that exists.
schedule_name : Option ℕ → List Schedule → Option (Option Text)
schedule_name none schedules = some none
schedule_name (some s) schedules = elim (find? (λ row. row.id == s) schedules) [
  | none ↦ none
  | some row ↦ some (some row.name)
]

-- A new row also gets its name, from the schedule's; where the schedule of the request does not exist,
-- the transaction that began with `before` is rolled back.
fill_new : Outside → Request → Db → Db → Backup → Option (Option Text) → Initiated × Db
unfolding save_backup fill
fill_new o r before db backup none = (Initiated.raised Error.does_not_exist, before)
fill_new o r before db backup (some name) =
    let uuid = backup_uuid o.slugify db.node.name db.node.id backup.id r.backup_type name in
    (
      Initiated.started backup.id,
      save_backup backup.id (λ b. record (fill r b) { uuid = some uuid }) db,
    )

-- The write of the row.
fill_row : Outside → Request → Db → Db × Backup × Bool → Initiated × Db
unfolding fill_new schedule_name
fill_row o r before (db, backup, true) =
    fill_new o r before db backup (schedule_name r.schedule_id db.schedules)
fill_row o r before (db, backup, false) =
    (Initiated.started backup.id, save_backup backup.id (fill r) db)

unless_active : Outside → Request → Db → Option Backup → Initiated × Db
unfolding get_or_create fill_row
unless_active o r db (some other) = (Initiated.blocked, db)
unless_active o r db none = fill_row o r db (get_or_create r.task_id db)

-- The transaction of `backup_initiate`.
unfoldable pub begin_backup : Outside → Request → Db → Initiated × Db
unfolding active_backup unless_active
begin_backup o r db = unless_active o r db (active_backup r.task_id db)

-- `backup.storage_points.add(storage)`: a row per storage, made once
add_storage_point : ℕ → Storage → Backup → Backup
add_storage_point point_id storage b =
    if any (λ p. p.storage_id == storage.id) b.storage_points
    then b
    else record b { storage_points = b.storage_points ++ point ∷ [] }
  where
    point : StoragePoint
    point = record {
      id = point_id;
      storage_id = storage.id;
      storage_code = storage.code;
      status = PointStatus.upload_ready;
      storage_file_id = none;
      celery_task_id = none;
    }

-- A storage that validates becomes a storage point; of one that does not, log and members are told.
attach_storage : Bool → ℕ → Storage → Db → Db
unfolding save_backup add_storage_point
attach_storage true i s db = record (save_backup i (add_storage_point db.next_point_id s) db) {
  next_point_id = db.next_point_id + 1;
}
attach_storage false i s db =
    send (Message.notify_storage_validation_fail s.id i) (send (Message.backup_log i) db)

-- The loop over the storages of the request.
unfoldable pub attach_storages : Outside → ℕ → List Storage → Db → Db
unfolding attach_storage
attach_storages o i [] db = db
attach_storages o i (s ∷ rest) db =
    attach_storages o i rest (attach_storage (o.storage_validates s.id) i s db)

-- `CoreStorage.objects.filter(id__in=…, account=…, status=ACTIVE)`
unfoldable pub requested_storages : List ℕ → Db → List Storage
requested_storages ids db =
    filter
      (λ s.
        any (λ i. i == s.id) ids && (s.account_id == db.account_id && storage_is_active s.status))
      db.storages

-- Cloud servers and volumes have no storage points.
unfoldable pub has_storage_points : NodeType → Bool
has_storage_points NodeType.cloud = false
has_storage_points NodeType.volume = false
has_storage_points _ = true

-- What follows the transaction.
after_begin : Outside → List ℕ → Initiated × Db → Initiated × Db
unfolding attach_storages requested_storages has_storage_points
after_begin o ids (Initiated.started i, db) = (
  Initiated.started i,
  if has_storage_points db.node.type
      then attach_storages o i (requested_storages ids db) db
      else db,
)
after_begin o ids (Initiated.blocked, db) = (Initiated.blocked, db)
after_begin o ids (Initiated.raised e, db) = (Initiated.raised e, db)

unfoldable pub backup_initiate : Outside → Request → Db → Initiated × Db
unfolding begin_backup after_begin
backup_initiate o r db = after_begin o r.storage_ids (begin_backup o r db)

save_found : BackupStatus → Db → Option Backup → Db
unfolding save_backup
save_found s db none = db
save_found s db (some b) = save_backup b.id (set_status s) db

-- The backup of the task, if there is one, gets the status.
unfoldable pub set_task_status : Option ℕ → BackupStatus → Db → Db
unfolding save_found
set_task_status t s db = save_found s db (get_backup_from_celery_task_id t db)

unfoldable pub activate : Db → Db
activate db = record db { node = record db.node { status = NodeStatus.active } }

unfoldable pub backup_complete_reset : Option ℕ → Db → Db
unfolding set_task_status activate
backup_complete_reset t db = set_task_status t BackupStatus.complete (activate db)

unfoldable pub backup_timeout_reset : Option ℕ → Db → Db
unfolding set_task_status activate
backup_timeout_reset t db = set_task_status t BackupStatus.timeout (activate db)

unfoldable pub backup_retrying_reset : ℕ → Db → Db
unfolding set_task_status
backup_retrying_reset t db = set_task_status (some t) BackupStatus.retrying db

unfoldable pub backup_max_retries_reached : ℕ → Db → Db
unfolding set_task_status
backup_max_retries_reached t db = set_task_status (some t) BackupStatus.max_retry_failed db
