-- ===== src/Task/Files/Dispatch.antt =====
-- When the broker does not take the uploads of a finished dump.
use backupsheep.Prelude.{ℕ, ◌≡◌, ◌≢◌, refl, false, List, [], ◌∷◌, none, some}
use backupsheep.Model.Rows.{Error, StoragePoint, Db}
use backupsheep.Node.{Outside, Request, Initiated, save_backup, backup_initiate}
use backupsheep.Node.Holding.{Holds}
use backupsheep.Node.Initiate.{backup_initiate_held}
use backupsheep.Task.Files.{
  Answers, Engine, send_uploads, downloading, upload, snapshot_and_upload, reraise, engine_error,
  website_create_snapshot, database_create_snapshot,
}
use backupsheep.Task.Files.Serialized.{snapshot_and_upload-Holds}

send_uploads-outbox :
    (i : ℕ) (ps : List StoragePoint) (db : Db) → (send_uploads false i ps db).outbox ≡ db.outbox
unfolding send_uploads save_backup
send_uploads-outbox i [] db = refl
send_uploads-outbox i (p ∷ ps) db = refl

upload-outbox : (i : ℕ) (db : Db) → (upload false i (downloading i db)).outbox ≡ db.outbox
unfolding upload downloading save_backup
upload-outbox i db = send_uploads-outbox i _ _

module _ (a : Answers) (t i : ℕ) (db : Db) (dumped : a.snapshot ≡ none) (lost : a.broker ≡ false)
    (h : Holds t i db) (o : Outside) (r : Request) (other : r.task_id ≢ t) where
  -- `create_snapshot` of a website only reports that the broker refused the uploads: it returns as if
  -- all were well, no upload and no `finalize_backup` is sent, the backup stays in flight, and every
  -- other task of the node is refused from then on.
  pub website_upload_lost :
      ((website_create_snapshot a i db).0 ≡ none)
      × ((website_create_snapshot a i db).1.outbox ≡ db.outbox)
      × (backup_initiate o r (website_create_snapshot a i db).1
          ≡ (Initiated.blocked, (website_create_snapshot a i db).1))
  unfolding website_create_snapshot
  website_upload_lost = (
    rw (dumped, snapshot_and_upload),
    rw (dumped, snapshot_and_upload, lost) (upload-outbox i db),
    backup_initiate_held o r t i _ (snapshot_and_upload-Holds t i a.broker a.snapshot db h) other,
  )

-- `create_snapshot` of a database raises instead, so that its task tries again.
database_upload_lost :
    (engine : Engine) (a : Answers) (i : ℕ) (db : Db)
    → engine_error engine a ≡ none
    → a.broker ≡ false
    → (database_create_snapshot engine a i db).0 ≡ some Error.node_backup_failed
unfolding database_create_snapshot
database_upload_lost engine a i db ok lost = rw (ok, snapshot_and_upload, lost, reraise)
