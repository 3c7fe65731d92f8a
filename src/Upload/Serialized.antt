-- ===== src/Upload/Serialized.antt =====
-- `storage_upload` and the table of the node.
use backupsheep.Prelude.{
  ℕ, ◌+◌, refl, Bool, true, false, leb, Option, none, some, Bool-cases, inl, inr,
}
use backupsheep.Model.Status.{PointStatus}
use backupsheep.Model.Rows.{StoragePoint, Message, Db, has_id}
use backupsheep.Node.{send, save_backup, get_cloud_backup}
use backupsheep.Node.Rows.{update-IsSerialized_same}
use backupsheep.Node.Holding.{IsSerializedDb}
use backupsheep.Upload.{
  Backend, leaves, raises, UploadError, UploadCall, has_files_table, get_point, write_point,
  save_point, run_backend, fail_point, notify_early, retry_point, on_upload_error, begin_upload,
  keep_file, set_point_status, after_backend, upload_found, storage_upload, upload_max_retries,
}

save_point-IsSerialized :
    (i p : ℕ) (f : StoragePoint → StoragePoint) (db : Db)
    → IsSerializedDb db
    → IsSerializedDb (save_point i p f db)
unfolding save_point save_backup write_point
save_point-IsSerialized i p f db h =
    update-IsSerialized_same (write_point p f) (record { id = λ b. refl; task = λ b. refl })
      (has_id i) h (λ b. refl)

notify_early-IsSerialized :
    (c : UploadCall) (db : Db) → IsSerializedDb db → IsSerializedDb (notify_early c db)
unfolding notify_early
notify_early-IsSerialized c db h = elim (Bool-cases (leb (c.retries + 1) 3)) [
  | inl e ↦ rw e h
  | inr e ↦ rw e h
]

module _ (may_retry : ℕ → ℕ → Bool) (c : UploadCall) where
  retry_point-IsSerialized :
      (db : Db) → IsSerializedDb db → IsSerializedDb (retry_point may_retry c db).1
  unfolding retry_point
  retry_point-IsSerialized db h = elim (Bool-cases (may_retry c.retries upload_max_retries)) [
    | inl e ↦ rw e h
    | inr e ↦ rw e (save_point-IsSerialized _ _ _ db h)
  ]

  fail_point-IsSerialized :
      (s : PointStatus) (db : Db) → IsSerializedDb db → IsSerializedDb (fail_point c s db)
  unfolding fail_point
  fail_point-IsSerialized s db h =
      save_point-IsSerialized c.backup_id c.stored_backup_id (set_point_status s)
        (send (Message.notify_upload_fail c.backup_id c.stored_backup_id) db) h

  error-IsSerialized :
      (e : UploadError) (db : Db)
      → IsSerializedDb db
      → IsSerializedDb (on_upload_error may_retry c e db).1
  unfolding on_upload_error
  error-IsSerialized UploadError.dropbox_file_id_missing db h =
      fail_point-IsSerialized PointStatus.upload_failed db h
  error-IsSerialized UploadError.s3_upload_failed db h =
      fail_point-IsSerialized PointStatus.upload_failed db h
  error-IsSerialized UploadError.soft_time_limit_exceeded db h =
      fail_point-IsSerialized PointStatus.upload_time_limit_reached db h
  error-IsSerialized (UploadError.other true) db h =
      save_point-IsSerialized c.backup_id c.stored_backup_id
        (set_point_status PointStatus.upload_failed_file_not_found) db h
  error-IsSerialized (UploadError.other false) db h =
      retry_point-IsSerialized
        (send (Message.storage_log c.backup_id c.stored_backup_id) (
          save_point c.backup_id c.stored_backup_id (set_point_status PointStatus.upload_retry)
            (notify_early c db)))
        (save_point-IsSerialized c.backup_id c.stored_backup_id
          (set_point_status PointStatus.upload_retry) (notify_early c db)
          (notify_early-IsSerialized c db h))
  error-IsSerialized _ db h = fail_point-IsSerialized PointStatus.upload_failed_storage_limit db h

  after_backend-IsSerialized :
      (b : Backend) (db : Db)
      → IsSerializedDb db
      → IsSerializedDb (after_backend may_retry c b db).1
  unfolding after_backend
  after_backend-IsSerialized (leaves s file) db h =
      save_point-IsSerialized c.backup_id c.stored_backup_id (keep_file s file) db h
  after_backend-IsSerialized (raises e) db h = error-IsSerialized e db h

  pub storage_upload-IsSerialized :
      (b : Backend) (db : Db)
      → IsSerializedDb db
      → IsSerializedDb (storage_upload may_retry b c db).1
  unfolding storage_upload upload_found begin_upload
  storage_upload-IsSerialized b db h =
      elim (Bool-cases (has_files_table db.node.type db.node.integration)) [
        | inl e ↦ rw e (go (get_point c.stored_backup_id (get_cloud_backup c.backup_id db)))
        | inr e ↦ rw e h
      ]
    where
      go : (p : Option StoragePoint) → IsSerializedDb (upload_found may_retry b c db p).1
      go none = h
      go (some p) =
          after_backend-IsSerialized (run_backend p.storage_code b) (begin_upload c db)
            (save_point-IsSerialized _ _ _ db h)
