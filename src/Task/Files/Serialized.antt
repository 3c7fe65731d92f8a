-- ===== src/Task/Files/Serialized.antt =====
-- The tasks of website, database, WordPress and Basecamp nodes and the table of the node.
use backupsheep.Prelude.{
  ℕ, refl, Bool, true, false, List, [], ◌∷◌, Option, none, some, Bool-cases, inl, inr,
  if◌then◌else◌,
}
use backupsheep.Model.Status.{BackupStatus, in_active_statuses}
use backupsheep.Model.Rows.{StoragePoint, Error, Message, Db}
use backupsheep.Node.{Outside, Request, Initiated, send, backup_initiate, activate}
use backupsheep.Node.Holding.{IsSerializedDb, Holds, Holds-IsFree, save-Holds_status}
use backupsheep.Node.Guard.{IsGuarded}
use backupsheep.Node.Initiate.{backup_initiate-IsGuarded}
use backupsheep.Task.{Call, Body, TaskEnd, may_run, request}
use backupsheep.Task.Files
use backupsheep.Task.Files.{
  snapshot_and_upload, reraise, website_timeout, soft_time_limit, Validation, valid, invalid,
  raises, Answers, downloading, upload, send_uploads, ready_points, website_create_snapshot,
  wordpress_create_snapshot, basecamp_create_snapshot, Engine, engine_error,
  database_create_snapshot, after_snapshot, discard, handlers, unless_raises, backup_website,
  backup_database, backup_wordpress, backup_basecamp,
}
use backupsheep.Task.Ends.{HasLanded, IsHandled, on_error-HasLanded, on_timeout-HasLanded}

send-Holds : (t i : ℕ) (m : Message) (db : Db) → Holds t i db → Holds t i (send m db)
send-Holds t i m db h = record { serialized = h.serialized; held = h.held; own = h.own }

send_uploads-Holds :
    (t i : ℕ) (broker : Bool) (ps : List StoragePoint) (db : Db)
    → Holds t i db
    → Holds t i (send_uploads broker i ps db)
unfolding send_uploads in_active_statuses
send_uploads-Holds t i true [] db h = send-Holds t i _ db h
send_uploads-Holds t i false [] db h = h
send_uploads-Holds t i true (p ∷ ps) db h =
    send-Holds t i _ _ (save-Holds_status t i BackupStatus.upload_in_progress db refl h)
send_uploads-Holds t i false (p ∷ ps) db h =
    save-Holds_status t i BackupStatus.upload_in_progress db refl h

downloading-Holds : (t i : ℕ) (db : Db) → Holds t i db → Holds t i (downloading i db)
unfolding downloading in_active_statuses
downloading-Holds t i db h = save-Holds_status t i BackupStatus.download_in_progress db refl h

upload-Holds : (t i : ℕ) (broker : Bool) (db : Db) → Holds t i db → Holds t i (upload broker i db)
unfolding upload in_active_statuses
upload-Holds t i broker db h =
    send_uploads-Holds t i broker _ _
      (save-Holds_status t i BackupStatus.download_complete db refl h)

-- A snapshot after which the task still holds its backup.
abbrev KeepsHold : (ℕ → Db → Option Error × Db) → Type 0
KeepsHold snapshot = (t i : ℕ) (db : Db) → Holds t i db → Holds t i (snapshot i db).1

pub snapshot_and_upload-Holds :
    (t i : ℕ) (broker : Bool) (failure : Option Error) (db : Db)
    → Holds t i db
    → Holds t i (snapshot_and_upload broker i db failure).1
unfolding snapshot_and_upload
snapshot_and_upload-Holds t i broker none db h =
    upload-Holds t i broker _ (downloading-Holds t i db h)
snapshot_and_upload-Holds t i broker (some e) db h = downloading-Holds t i db h

reraise-Holds :
    (t i : ℕ) (broker : Bool) (x : Option Error × Db)
    → Holds t i x.1
    → Holds t i (reraise broker x).1
unfolding reraise
reraise-Holds t i broker (some e, db) h = h
reraise-Holds t i true (none, db) h = h
reraise-Holds t i false (none, db) h = h

body-IsHandled :
    (t : ℕ) (snapshot : ℕ → Db → Option Error × Db) (v : Validation) (x : Initiated × Db)
    → KeepsHold snapshot
    → IsGuarded t x
    → IsHandled t (Files.body snapshot v x)
unfolding Files.body activate
body-IsHandled t snapshot v (Initiated.blocked, db) k g = g
body-IsHandled t snapshot v (Initiated.raised e, db) k g = g
body-IsHandled t snapshot valid (Initiated.started i, db) k g = after (snapshot i db) (k t i db g)
  where
    after : (x : Option Error × Db) → Holds t i x.1 → IsHandled t (after_snapshot i x)
    after (none, d) h = h.serialized
    after (some e, d) h = Holds-IsFree h
body-IsHandled t snapshot invalid (Initiated.started i, db) k g = Holds-IsFree g
body-IsHandled t snapshot (raises e) (Initiated.started i, db) k g = Holds-IsFree g

discard-HasLanded :
    (backup : Option ℕ) (x : TaskEnd × Db) → HasLanded x → HasLanded (discard backup x)
unfolding discard
discard-HasLanded none (end, db) h = h
discard-HasLanded (some i) (TaskEnd.gave_up, db) h = h
discard-HasLanded (some i) (TaskEnd.timed_out, db) h = h
discard-HasLanded (some i) (TaskEnd.done, db) h = h
discard-HasLanded (some i) (TaskEnd.retrying, db) h = h
discard-HasLanded (some i) (TaskEnd.crashed, db) h = h

handlers-HasLanded :
    (is_timeout : Error → Bool) (o : Outside) (r : Request) (x : Body × Db)
    → IsHandled r.task_id x
    → HasLanded (handlers is_timeout o r x)
unfolding handlers
handlers-HasLanded is_timeout o r (Body.returned, db) h = h
handlers-HasLanded is_timeout o r (Body.finished, db) h = h
handlers-HasLanded is_timeout o r (Body.raised e backup, db) h = elim (Bool-cases (is_timeout e)) [
  | inl late ↦ rw late (discard-HasLanded backup _ (on_timeout-HasLanded r e db h))
  | inr other ↦ rw other (on_error-HasLanded o r e db h)
]

task-HasLanded :
    (is_timeout : Error → Bool) (snapshot : ℕ → Db → Option Error × Db) (v : Validation)
    (o : Outside) (c : Call) (db : Db)
    → KeepsHold snapshot
    → IsSerializedDb db
    → HasLanded (
        if may_run c db
        then handlers is_timeout o
            (request c)
            (Files.body snapshot v (backup_initiate o (request c) db))
        else (TaskEnd.done, db))
task-HasLanded is_timeout snapshot v o c db k h = elim (Bool-cases (may_run c db)) [
  | inl run ↦ rw run (
      handlers-HasLanded is_timeout o (request c) _ (
        body-IsHandled (request c).task_id snapshot v _ k
          (backup_initiate-IsGuarded o (request c) db h)))
  | inr stop ↦ rw stop h
]

module _ (o : Outside) (a : Answers) (c : Call) (db : Db) (h : IsSerializedDb db) where
  pub backup_website-HasLanded : HasLanded (backup_website o a c db)
  unfolding backup_website website_create_snapshot
  backup_website-HasLanded =
      task-HasLanded website_timeout (website_create_snapshot a) a.connection o c db
        (λ t i d k. snapshot_and_upload-Holds t i a.broker a.snapshot d k) h

  pub backup_database-HasLanded : (engine : Engine) → HasLanded (backup_database engine o a c db)
  unfolding backup_database database_create_snapshot
  backup_database-HasLanded engine =
      task-HasLanded soft_time_limit (database_create_snapshot engine a)
        (unless_raises a.connection) o c db
        (λ t i d k.
          reraise-Holds t i a.broker _
            (snapshot_and_upload-Holds t i a.broker (engine_error engine a) d k))
        h

  pub backup_wordpress-HasLanded : HasLanded (backup_wordpress o a c db)
  unfolding backup_wordpress wordpress_create_snapshot
  backup_wordpress-HasLanded =
      task-HasLanded soft_time_limit (wordpress_create_snapshot a) a.connection o c db
        (λ t i d k. snapshot_and_upload-Holds t i a.broker a.snapshot d k) h

  pub backup_basecamp-HasLanded : HasLanded (backup_basecamp o a c db)
  unfolding backup_basecamp basecamp_create_snapshot
  backup_basecamp-HasLanded =
      task-HasLanded soft_time_limit (basecamp_create_snapshot a) a.connection o c db
        (λ t i d k. snapshot_and_upload-Holds t i a.broker a.snapshot d k) h

  -- `backup_website`, `backup_database` for every type of engine, `backup_wordpress` and
  -- `backup_basecamp` keep at most one backup of the node in flight, whatever they meet, and none once
  -- they have given up or have run out of time.
  pub files_backups-HasLanded :
      HasLanded (backup_website o a c db)
      × ((engine : Engine) → HasLanded (backup_database engine o a c db))
      × HasLanded (backup_wordpress o a c db)
      × HasLanded (backup_basecamp o a c db)
  files_backups-HasLanded = (
    backup_website-HasLanded, backup_database-HasLanded, backup_wordpress-HasLanded,
    backup_basecamp-HasLanded,
  )
