-- ===== src/Upload.antt =====
-- The upload of a backup to one storage: `storage_upload` of apps/_tasks/integration/storage/tasks.py.
-- The backends are modules of their own; here one is what it leaves of the storage point or raises.
pub mod Outcome
pub mod Serialized
use backupsheep.Prelude.{
  ℕ, zero, suc, ◌+◌, Bool, true, false, List, Option, none, some, ◌==◌, leb, if◌then◌else◌, find?,
  update,
}
use backupsheep.Model.Status.{PointStatus, NodeType, Integration, StorageCode}
use backupsheep.Model.Rows.{Text, StoragePoint, Backup, Node, Message, Db, has_id}
use backupsheep.Node.{send, save_backup, get_cloud_backup}

-- What a backend may raise; `other` says whether the text of the error reads as that of a missing
-- local file.
pub data UploadError : Type 0 where
  google_drive_not_enough_storage spaces_bucket_deleted spaces_no_such_bucket : UploadError
  dropbox_not_enough_storage filebase_quota_exceeded dropbox_token_expired : UploadError
  dropbox_file_id_missing s3_upload_failed soft_time_limit_exceeded : UploadError
  other : Bool → UploadError

pub data Backend : Type 0 where
  leaves : PointStatus → Option Text → Backend
  raises : UploadError → Backend

pub record UploadCall : Type 0 where
  pub node_id : ℕ
  pub backup_id : ℕ
  pub stored_backup_id : ℕ
  pub task_id : ℕ
  pub retries : ℕ

-- How the task ends. `does_not_exist` and `params_not_provided` are raised to Celery.
pub data UploadEnd : Type 0 where
  done retrying does_not_exist params_not_provided : UploadEnd

abbrev pub upload_max_retries : ℕ
upload_max_retries = 96

-- Whether the task knows a table of backups for the node.
unfoldable pub has_files_table : NodeType → Integration → Bool
has_files_table NodeType.website i = true
has_files_table NodeType.database i = true
has_files_table NodeType.saas Integration.wordpress = true
has_files_table NodeType.saas Integration.basecamp = true
has_files_table _ i = false

abbrev pub point_id : ℕ → StoragePoint → Bool
point_id p point = point.id == p

unfoldable pub get_point : ℕ → Option Backup → Option StoragePoint
get_point p none = none
get_point p (some b) = find? (point_id p) b.storage_points

-- `stored_backup.save()`
write_point : ℕ → (StoragePoint → StoragePoint) → Backup → Backup
write_point p f b = record b { storage_points = update (point_id p) f b.storage_points }

unfoldable pub save_point : ℕ → ℕ → (StoragePoint → StoragePoint) → Db → Db
unfolding save_backup write_point
save_point i p f db = save_backup i (write_point p f) db

abbrev pub set_point_status : PointStatus → StoragePoint → StoragePoint
set_point_status s p = record p { status = s }

-- `stored_backup.storage.type.code in …`
unfoldable pub supported : StorageCode → Bool
supported StorageCode.unsupported = false
supported _ = true

-- The `else` of the dispatch, for a code that is none of the storage types
run_backend : StorageCode → Backend → Backend
unfolding supported
run_backend code backend = if supported code then backend else leaves PointStatus.upload_failed none

-- The members are told, the point gets its status, and the log says why.
fail_point : UploadCall → PointStatus → Db → Db
unfolding save_point
fail_point c s db = send (Message.storage_log c.backup_id c.stored_backup_id) (
    save_point c.backup_id c.stored_backup_id (set_point_status s)
      (send (Message.notify_upload_fail c.backup_id c.stored_backup_id) db))

-- Of an error that may pass, the members are told in the first three attempts.
notify_early : UploadCall → Db → Db
notify_early c db =
    if leb (c.retries + 1) 3
    then send (Message.notify_upload_fail c.backup_id c.stored_backup_id) db
    else db

retry_point : (ℕ → ℕ → Bool) → UploadCall → Db → UploadEnd × Db
unfolding save_point
retry_point may_retry c db =
    if may_retry c.retries upload_max_retries then (UploadEnd.retrying, db) else (
      UploadEnd.done,
      save_point c.backup_id c.stored_backup_id (set_point_status PointStatus.upload_failed) db,
    )

on_upload_error : (ℕ → ℕ → Bool) → UploadCall → UploadError → Db → UploadEnd × Db
unfolding fail_point notify_early retry_point save_point
on_upload_error may_retry c dropbox_file_id_missing db =
    (UploadEnd.done, fail_point c PointStatus.upload_failed db)
on_upload_error may_retry c s3_upload_failed db =
    (UploadEnd.done, fail_point c PointStatus.upload_failed db)
on_upload_error may_retry c soft_time_limit_exceeded db =
    (UploadEnd.done, fail_point c PointStatus.upload_time_limit_reached db)
on_upload_error may_retry c (other true) db = (
  UploadEnd.done,
  send (Message.storage_log c.backup_id c.stored_backup_id) (
      save_point c.backup_id c.stored_backup_id
        (set_point_status PointStatus.upload_failed_file_not_found) db),
)
on_upload_error may_retry c (other false) db = retry_point may_retry c (
    send (Message.storage_log c.backup_id c.stored_backup_id) (
      save_point c.backup_id c.stored_backup_id (set_point_status PointStatus.upload_retry)
        (notify_early c db)))
on_upload_error may_retry c limit db =
    (UploadEnd.done, fail_point c PointStatus.upload_failed_storage_limit db)

begin_upload : UploadCall → Db → Db
unfolding save_point
begin_upload c db =
    save_point c.backup_id c.stored_backup_id
      (λ p. record p { status = PointStatus.upload_in_progress; celery_task_id = some c.task_id })
      db

-- What a backend that returns has saved.
keep_file : PointStatus → Option Text → StoragePoint → StoragePoint
keep_file s none p = record p { status = s }
keep_file s (some file) p = record p { status = s; storage_file_id = some file }

after_backend : (ℕ → ℕ → Bool) → UploadCall → Backend → Db → UploadEnd × Db
unfolding keep_file save_point on_upload_error
after_backend may_retry c (leaves s file) db =
    (UploadEnd.done, save_point c.backup_id c.stored_backup_id (keep_file s file) db)
after_backend may_retry c (raises e) db = on_upload_error may_retry c e db

upload_found : (ℕ → ℕ → Bool) → Backend → UploadCall → Db → Option StoragePoint → UploadEnd × Db
unfolding run_backend begin_upload after_backend
upload_found may_retry backend c db none = (UploadEnd.does_not_exist, db)
upload_found may_retry backend c db (some p) =
    after_backend may_retry c (run_backend p.storage_code backend) (begin_upload c db)

unfoldable pub storage_upload : (ℕ → ℕ → Bool) → Backend → UploadCall → Db → UploadEnd × Db
unfolding has_files_table upload_found get_point
storage_upload may_retry backend c db =
    if has_files_table db.node.type db.node.integration
    then upload_found may_retry backend c db
        (get_point c.stored_backup_id (get_cloud_backup c.backup_id db))
    else (UploadEnd.params_not_provided, db)
