-- ===== src/Upload/Outcome/Left.antt =====
-- The end of a run of `storage_upload` whose backend returns.
use mathlib.Core.Option
use backupsheep.Prelude.{ℕ, ◌≡◌, refl, ap, Bool, true, Option, none, some}
use backupsheep.Model.Status.{PointStatus}
use backupsheep.Model.Rows.{Text, StoragePoint, Db}
use backupsheep.Upload.{
  leaves, UploadCall, UploadEnd, has_files_table, supported, run_backend, begin_upload, keep_file,
  after_backend, upload_found, storage_upload,
}
use backupsheep.Upload.Outcome.{point_of, found_again, begin_upload-Leaves, keep_file-id}

keep_file-status :
    (s : PointStatus) (file : Option Text) (p : StoragePoint) → (keep_file s file p).status ≡ s
unfolding keep_file
keep_file-status s none p = refl
keep_file-status s (some f) p = refl

-- The run ends without a retry, and its point has the status that the backend left.
pub storage_upload_left :
    (may_retry : ℕ → ℕ → Bool) (c : UploadCall) (db : Db) (q : StoragePoint)
    → has_files_table db.node.type db.node.integration ≡ true
    → point_of c db ≡ some q
    → supported q.storage_code ≡ true
    → (s : PointStatus) (file : Option Text)
    → ((storage_upload may_retry (leaves s file) c db).0 ≡ UploadEnd.done)
      × (Option.map (λ p. p.status) (point_of c (storage_upload may_retry (leaves s file) c db).1)
          ≡ some s)
unfolding storage_upload upload_found run_backend after_backend begin_upload
storage_upload_left may_retry c db q known found code s file =
    rw (known, found, upload_found)
      (rw code (
        refl,
        rw
            (found_again c.backup_id c.stored_backup_id (keep_file s file) (begin_upload c db) _
              (keep_file-id s file) (begin_upload-Leaves c db q found).found)
            (ap some (keep_file-status s file (begin_upload-Leaves c db q found).point)),
      ))
