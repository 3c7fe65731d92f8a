-- ===== src/Task/Files.antt =====
-- The backups that are made on the server's disk and then uploaded: backup_website, backup_database,
-- backup_wordpress and backup_basecamp of apps/_tasks/integration, and `create_snapshot` of
-- CoreWebsite, CoreDatabase, CoreWordPress and CoreBasecamp of apps/console/node/models.py.
pub mod Serialized
pub mod Dispatch
use backupsheep.Prelude.{
  ℕ, Bool, true, false, List, [], ◌∷◌, map, Option, none, some, filter, if◌then◌else◌,
}
use backupsheep.Model.Status.{BackupStatus, is_upload_ready}
use backupsheep.Model.Rows.{Text, StoragePoint, Backup, Error, PathType, Message, Db, set_status}
use backupsheep.Node.{
  Outside, Request, Initiated, send, save_backup, get_cloud_backup, backup_initiate, activate,
}
use backupsheep.Task.{Call, Body, TaskEnd, may_run, request, on_error, on_timeout}

-- What `connection.validate` does.
pub data Validation : Type 0 where
  valid invalid : Validation
  raises : Error → Validation

-- What an attempt meets outside the database: the validation of the connection, what the snapshot
-- engine raises if it fails, and whether the broker takes the uploads.
pub record Answers : Type 0 where
  pub connection : Validation
  pub snapshot : Option Error
  pub broker : Bool

-- The storage points of the backup that wait for their upload
ready_points : Option Backup → List StoragePoint
ready_points none = []
ready_points (some b) = filter (λ p. is_upload_ready p.status) b.storage_points

-- The uploads and, once all have ended, `finalize_backup`; or this alone, with nothing to upload.
send_uploads : Bool → ℕ → List StoragePoint → Db → Db
send_uploads broker i [] db = if broker then send (Message.finalize_backup i) db else db
send_uploads broker i (p ∷ ps) db =
    let db' = save_backup i (set_status BackupStatus.upload_in_progress) db in
    if broker then send (Message.upload_chord i (map (λ q. q.id) (p ∷ ps))) db' else db'

downloading : ℕ → Db → Db
downloading i db = save_backup i (set_status BackupStatus.download_in_progress) db

upload : Bool → ℕ → Db → Db
unfolding send_uploads ready_points
upload broker i db =
    let db' = save_backup i (set_status BackupStatus.download_complete) db in
    send_uploads broker i (ready_points (get_cloud_backup i db')) db'

-- The snapshot engine, and the upload unless it raises
pub snapshot_and_upload : Bool → ℕ → Db → Option Error → Option Error × Db
unfolding downloading upload
snapshot_and_upload broker i db (some e) = (some e, downloading i db)
snapshot_and_upload broker i db none = (none, upload broker i (downloading i db))

-- CoreWebsite.create_snapshot; what the broker raises is only reported.
unfoldable pub website_create_snapshot : Answers → ℕ → Db → Option Error × Db
unfolding snapshot_and_upload
website_create_snapshot a i db = snapshot_and_upload a.broker i db a.snapshot

-- CoreWordPress.create_snapshot
unfoldable pub wordpress_create_snapshot : Answers → ℕ → Db → Option Error × Db
unfolding snapshot_and_upload
wordpress_create_snapshot a i db = snapshot_and_upload a.broker i db a.snapshot

-- CoreBasecamp.create_snapshot
unfoldable pub basecamp_create_snapshot : Answers → ℕ → Db → Option Error × Db
unfolding snapshot_and_upload
basecamp_create_snapshot a i db = snapshot_and_upload a.broker i db a.snapshot

-- CoreAuthDatabase.DatabaseType, and any other value of the column
pub data Engine : Type 0 where
  mysql mariadb postgresql unsupported : Engine

-- What the engine of that type raises
pub engine_error : Engine → Answers → Option Error
engine_error unsupported a = some Error.node_backup_failed
engine_error _ a = a.snapshot

-- What the broker raises is raised again, as a failed backup.
reraise : Bool → Option Error × Db → Option Error × Db
reraise broker (some e, db) = (some e, db)
reraise true (none, db) = (none, db)
reraise false (none, db) = (some Error.node_backup_failed, db)

-- CoreDatabase.create_snapshot
unfoldable pub database_create_snapshot : Engine → Answers → ℕ → Db → Option Error × Db
unfolding snapshot_and_upload engine_error reraise
database_create_snapshot engine a i db =
    reraise a.broker (snapshot_and_upload a.broker i db (engine_error engine a))

after_snapshot : ℕ → Option Error × Db → Body × Db
unfolding activate
after_snapshot i (none, db) = (Body.finished, activate db)
after_snapshot i (some e, db) = (Body.raised e (some i), db)

-- The `try` block behind `backup_initiate`, with a snapshot for the kind of node.
body : (ℕ → Db → Option Error × Db) → Validation → Initiated × Db → Body × Db
unfolding after_snapshot
body snapshot v (Initiated.blocked, db) = (Body.returned, db)
body snapshot v (Initiated.raised e, db) = (Body.raised e none, db)
body snapshot valid (Initiated.started i, db) = after_snapshot i (snapshot i db)
body snapshot invalid (Initiated.started i, db) =
    (Body.raised Error.connection_validation_failed (some i), db)
body snapshot (raises e) (Initiated.started i, db) = (Body.raised e (some i), db)

uuid_of : Option Backup → Option Text
uuid_of none = none
uuid_of (some b) = b.uuid

-- What has been downloaded for the backup is deleted.
discard : Option ℕ → TaskEnd × Db → TaskEnd × Db
unfolding uuid_of
discard none (end, db) = (end, db)
discard (some i) (end, db) =
    let uuid = uuid_of (get_cloud_backup i db) in
    (
      end,
      send (Message.delete_from_disk uuid PathType.zip)
          (send (Message.delete_from_disk uuid PathType.dir) db),
    )

-- The `except` clauses, for a kind of task that treats the errors of `is_timeout` as timeouts.
handlers : (Error → Bool) → Outside → Request → Body × Db → TaskEnd × Db
unfolding discard
handlers is_timeout o r (Body.returned, db) = (TaskEnd.done, db)
handlers is_timeout o r (Body.finished, db) = (TaskEnd.done, db)
handlers is_timeout o r (Body.raised e backup, db) =
    if is_timeout e then discard backup (on_timeout r e db) else on_error o r e db

soft_time_limit : Error → Bool
soft_time_limit Error.soft_time_limit_exceeded = true
soft_time_limit _ = false

website_timeout : Error → Bool
website_timeout Error.soft_time_limit_exceeded = true
website_timeout Error.node_backup_timeout = true
website_timeout _ = false

unfoldable pub backup_website : Outside → Answers → Call → Db → TaskEnd × Db
unfolding body handlers website_timeout
backup_website o a c db =
    if may_run c db
    then handlers website_timeout o (request c)
        (body (website_create_snapshot a) a.connection (backup_initiate o (request c) db))
    else (TaskEnd.done, db)

-- `connection.validate(check_errors=True, raise_exp=True)`: what it returns is not read.
unless_raises : Validation → Validation
unless_raises invalid = valid
unless_raises v = v

unfoldable pub backup_database : Engine → Outside → Answers → Call → Db → TaskEnd × Db
unfolding body handlers soft_time_limit unless_raises
backup_database engine o a c db =
    if may_run c db
    then handlers soft_time_limit o (request c) (
        body (database_create_snapshot engine a) (unless_raises a.connection)
          (backup_initiate o (request c) db))
    else (TaskEnd.done, db)

unfoldable pub backup_wordpress : Outside → Answers → Call → Db → TaskEnd × Db
unfolding body handlers soft_time_limit
backup_wordpress o a c db =
    if may_run c db
    then handlers soft_time_limit o (request c)
        (body (wordpress_create_snapshot a) a.connection (backup_initiate o (request c) db))
    else (TaskEnd.done, db)

unfoldable pub backup_basecamp : Outside → Answers → Call → Db → TaskEnd × Db
unfolding body handlers soft_time_limit
backup_basecamp o a c db =
    if may_run c db
    then handlers soft_time_limit o (request c)
        (body (basecamp_create_snapshot a) a.connection (backup_initiate o (request c) db))
    else (TaskEnd.done, db)
