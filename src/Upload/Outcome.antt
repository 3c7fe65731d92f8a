-- ===== src/Upload/Outcome.antt =====
-- What one run of `storage_upload` leaves of its storage point.
pub mod Left
use mathlib.Core.Option
use backupsheep.Prelude.{
  ℕ, ◌≡◌, refl, ap, Bool, true, false, Option, none, some, find?, find-update, if◌then◌else◌, leb,
  ◌+◌,
}
use backupsheep.Model.Status.{PointStatus, is_upload_complete}
use backupsheep.Model.Rows.{Message, Text, StoragePoint, Backup, Db, has_id}
use backupsheep.Node.{get_cloud_backup, send}
use backupsheep.Upload.{
  Backend, leaves, raises, UploadCall, UploadEnd, UploadError, has_files_table, get_point, point_id,
  write_point, save_point, set_point_status, supported, run_backend, fail_point, notify_early,
  retry_point, on_upload_error, begin_upload, keep_file, after_backend, upload_found,
  storage_upload, upload_max_retries,
}

-- The point of the call, as the database has it.
abbrev pub point_of : UploadCall → Db → Option StoragePoint
point_of c db = get_point c.stored_backup_id (get_cloud_backup c.backup_id db)

-- A point that is found is found again after a write to it.
found_again :
    (i p : ℕ) (f : StoragePoint → StoragePoint) (db : Db) (q : StoragePoint)
    → ((x : StoragePoint) → (f x).id ≡ x.id)
    → get_point p (get_cloud_backup i db) ≡ some q
    → get_point p (get_cloud_backup i (save_point i p f db)) ≡ some (f q)
unfolding get_cloud_backup save_point
found_again i p f db q keep h = go (find? (has_id i) db.backups) refl h
  where
    go :
        (b : Option Backup)
        → find? (has_id i) db.backups ≡ b
        → get_point p b ≡ some q
        → get_point p (get_cloud_backup i (save_point i p f db)) ≡ some (f q)
    go none e k = unfold get_point in cc
    go (some b) e k =
        rw (find-update (has_id i) (write_point p f) db.backups b (λ y. refl) e)
          (unfold get_point in (find-update (point_id p) f b.storage_points q (λ y. rw (keep y)) k))

-- The point of a run that ended with status `s` and, if the end is a retry, waits for it.
record Leaves (c : UploadCall) (s : PointStatus) (db : Db) : Type 0 where
  point : StoragePoint
  found : point_of c db ≡ some point
  status : point.status ≡ s

write-Leaves :
    (c : UploadCall) (s t : PointStatus) (db : Db)
    → Leaves c t db
    → Leaves c s (save_point c.backup_id c.stored_backup_id (set_point_status s) db)
write-Leaves c s t db l = record {
  point = set_point_status s l.point;
  found =
      found_again c.backup_id c.stored_backup_id (set_point_status s) db l.point (λ x. refl)
        l.found;
  status = refl;
}

send-Leaves :
    (c : UploadCall) (s : PointStatus) (m : Message) (db : Db)
    → Leaves c s db
    → Leaves c s (send m db)
unfolding get_cloud_backup
send-Leaves c s m db l = record { point = l.point; found = l.found; status = l.status }

fail_point-Leaves :
    (c : UploadCall) (s t : PointStatus) (db : Db) → Leaves c t db → Leaves c s (fail_point c s db)
unfolding fail_point
fail_point-Leaves c s t db l = send-Leaves c s _ _ (write-Leaves c s t _ (send-Leaves c t _ db l))

notify_early-Leaves :
    (c : UploadCall) (s : PointStatus) (db : Db) → Leaves c s db → Leaves c s (notify_early c db)
unfolding notify_early
notify_early-Leaves c s db l = go (leb (c.retries + 1) 3)
  where
    told : Message
    told = Message.notify_upload_fail c.backup_id c.stored_backup_id

    go : (b : Bool) → Leaves c s (if b then send told db else db)
    go true = send-Leaves c s told db l
    go false = l

abbrev pub is_retrying : UploadEnd → Bool
is_retrying UploadEnd.retrying = true
is_retrying _ = false

abbrev pub is_upload_retry : PointStatus → Bool
is_upload_retry PointStatus.upload_retry = true
is_upload_retry _ = false

-- The point after a run whose backend raised: not uploaded, and waiting for a retry exactly when one
-- is scheduled.
pub record HasFailed (c : UploadCall) (x : UploadEnd × Db) : Type 0 where
  pub point : StoragePoint
  pub found : point_of c x.1 ≡ some point
  pub not_uploaded : is_upload_complete point.status ≡ false
  pub waits : is_upload_retry point.status ≡ is_retrying x.0

done-HasFailed :
    (c : UploadCall) (s : PointStatus) (db : Db)
    → is_upload_complete s ≡ false
    → is_upload_retry s ≡ false
    → Leaves c s db
    → HasFailed c (UploadEnd.done, db)
done-HasFailed c s db n w l = record {
  point = l.point;
  found = l.found;
  not_uploaded = rw l.status n;
  waits = rw l.status w;
}

retry_point-HasFailed :
    (may_retry : ℕ → ℕ → Bool) (c : UploadCall) (db : Db)
    → Leaves c PointStatus.upload_retry db
    → HasFailed c (retry_point may_retry c db)
unfolding retry_point is_upload_complete
retry_point-HasFailed may_retry c db l = go (may_retry c.retries upload_max_retries)
  where
    go :
        (b : Bool)
        → HasFailed c (
            if b then (UploadEnd.retrying, db) else (
              UploadEnd.done,
              save_point c.backup_id c.stored_backup_id
                  (set_point_status PointStatus.upload_failed)
                  db,
            ))
    go true = record {
      point = l.point;
      found = l.found;
      not_uploaded = rw l.status;
      waits = rw l.status;
    }
    go false =
        done-HasFailed c PointStatus.upload_failed _ refl refl
          (write-Leaves c PointStatus.upload_failed PointStatus.upload_retry db l)

on_upload_error-HasFailed :
    (may_retry : ℕ → ℕ → Bool) (c : UploadCall) (e : UploadError) (s : PointStatus) (db : Db)
    → Leaves c s db
    → HasFailed c (on_upload_error may_retry c e db)
unfolding on_upload_error is_upload_complete
on_upload_error-HasFailed may_retry c UploadError.dropbox_file_id_missing s db l =
    done-HasFailed c PointStatus.upload_failed _ refl refl (fail_point-Leaves c _ s db l)
on_upload_error-HasFailed may_retry c UploadError.s3_upload_failed s db l =
    done-HasFailed c PointStatus.upload_failed _ refl refl (fail_point-Leaves c _ s db l)
on_upload_error-HasFailed may_retry c UploadError.soft_time_limit_exceeded s db l =
    done-HasFailed c PointStatus.upload_time_limit_reached _ refl refl
      (fail_point-Leaves c _ s db l)
on_upload_error-HasFailed may_retry c (UploadError.other true) s db l =
    done-HasFailed c PointStatus.upload_failed_file_not_found _ refl refl
      (send-Leaves c _ _ _ (write-Leaves c _ s db l))
on_upload_error-HasFailed may_retry c (UploadError.other false) s db l =
    retry_point-HasFailed may_retry c _
      (send-Leaves c _ _ _ (write-Leaves c _ s _ (notify_early-Leaves c s db l)))
on_upload_error-HasFailed may_retry c _ s db l =
    done-HasFailed c PointStatus.upload_failed_storage_limit _ refl refl
      (fail_point-Leaves c _ s db l)

begin_upload-Leaves :
    (c : UploadCall) (db : Db) (q : StoragePoint)
    → point_of c db ≡ some q
    → Leaves c PointStatus.upload_in_progress (begin_upload c db)
unfolding begin_upload
begin_upload-Leaves c db q h = record {
  point = record q { status = PointStatus.upload_in_progress; celery_task_id = some c.task_id };
  found = found_again c.backup_id c.stored_backup_id _ db q (λ x. refl) h;
  status = refl;
}

-- Whether a backend returns with the point marked UPLOAD_COMPLETE.
abbrev pub marks_uploaded : Backend → Bool
marks_uploaded (leaves s file) = is_upload_complete s
marks_uploaded (raises e) = false

keep_file-id :
    (s : PointStatus) (file : Option Text) (p : StoragePoint) → (keep_file s file p).id ≡ p.id
unfolding keep_file
keep_file-id s none p = refl
keep_file-id s (some f) p = refl

keep_file-uploaded :
    (s : PointStatus) (file : Option Text) (p : StoragePoint)
    → is_upload_complete (keep_file s file p).status ≡ is_upload_complete s
unfolding keep_file
keep_file-uploaded s none p = refl
keep_file-uploaded s (some f) p = refl

module _ (may_retry : ℕ → ℕ → Bool) (c : UploadCall) (db : Db) (q : StoragePoint)
    (known : has_files_table db.node.type db.node.integration ≡ true)
    (found : point_of c db ≡ some q) (code : supported q.storage_code ≡ true) where
  -- A storage point whose backend raised is not counted as uploaded, whatever was raised, and it
  -- waits for a retry exactly when Celery has scheduled one.
  pub storage_upload_raised :
      (e : UploadError) → HasFailed c (storage_upload may_retry (raises e) c db)
  unfolding storage_upload upload_found run_backend after_backend
  storage_upload_raised e =
      rw (known, found, upload_found)
        (rw code (on_upload_error-HasFailed may_retry c e _ _ (begin_upload-Leaves c db q found)))

  -- Every run leaves the point counted as uploaded exactly when the backend has marked it so itself.
  pub storage_upload_counts :
      (backend : Backend)
      → Option.map
          (λ p. is_upload_complete p.status)
          (point_of c (storage_upload may_retry backend c db).1)
        ≡ some (marks_uploaded backend)
  storage_upload_counts (raises e) =
      let h = storage_upload_raised e in rw h.found (ap some h.not_uploaded)
  storage_upload_counts (leaves s file) =
      unfold storage_upload upload_found run_backend after_backend begin_upload in
      rw (known, found, upload_found)
        (rw code (
          rw
            (found_again c.backup_id c.stored_backup_id (keep_file s file) (begin_upload c db) _
              (keep_file-id s file) (begin_upload-Leaves c db q found).found)
            (ap some (keep_file-uploaded s file (begin_upload-Leaves c db q found).point))))
