-- ===== src/Storage/Local.antt =====
-- `storage_local` of apps/_tasks/integration/storage/local.py and `storage_pcloud` of pcloud.py. What
-- the disk and the pCloud client do is an argument.
use backupsheep.Prelude.{ℕ, Bool, ◌++◌, Option, none, some, length, ◌==◌, if◌then◌else◌}
use backupsheep.Prelude.Text.{codes, show}
use backupsheep.Model.Status.{PointStatus}
use backupsheep.Model.Rows.{Text}
use backupsheep.Upload.{Backend}
use backupsheep.Storage.Failures.{
  Failure, file_not_found, resumable_upload, failed, Call, returns, fails, raise_failed,
}
use backupsheep.Storage.Chunks.{Bytes}

-- The target directory and its creation, the absolute path of the target file, and the size that this
-- file has after the copy.
pub record Disk : Type 0 where
  pub make_directory : Option Failure
  pub target_file : Text
  pub copy : Bytes → Call ℕ

on_local_failure : Failure → Backend
unfolding raise_failed
on_local_failure file_not_found = Backend.leaves PointStatus.upload_failed_file_not_found none
on_local_failure (resumable_upload t) = raise_failed t
on_local_failure (failed t) = raise_failed t

-- The message of the IOError
mismatch : Text → ℕ → ℕ → Text
mismatch target_file source_size size =
    codes "Size mismatch after copy to "
    ++ target_file
    ++ codes ": expected "
    ++ show source_size
    ++ codes " bytes, got "
    ++ show size
    ++ codes " bytes."

check_size : Disk → ℕ → Call ℕ → Backend
unfolding on_local_failure mismatch
check_size d source_size (fails e) = on_local_failure e
check_size d source_size (returns size) =
    if size == source_size
    then Backend.leaves PointStatus.upload_complete (some d.target_file)
    else on_local_failure (failed (mismatch d.target_file source_size size))

copy_file : Disk → Option Bytes → Option Failure → Backend
unfolding check_size
copy_file d local (some e) = on_local_failure e
copy_file d none none = on_local_failure file_not_found
copy_file d (some file) none = check_size d (length file) (d.copy file)

-- `local` is the local zip, if it is there.
unfoldable pub storage_local : Disk → Option Bytes → Backend
unfolding copy_file
storage_local d local = copy_file d local d.make_directory

-- The first metadata of a response: whether it has a `fileid`, and its `path`.
pub record Metadata : Type 0 where
  pub has_fileid : Bool
  pub path : Option Text

pub record PCloud : Type 0 where
  pub create_folder : Option Failure
  pub upload : Call (Option Metadata)

-- The only `except` clause: a missing file is an error as any other, with the text that Python gives it.
on_pcloud_failure : Failure → Backend
unfolding raise_failed
on_pcloud_failure file_not_found = raise_failed (codes "[Errno 2] No such file or directory")
on_pcloud_failure (resumable_upload t) = raise_failed t
on_pcloud_failure (failed t) = raise_failed t

-- A metadata without a `fileid` leaves the point as it is.
pcloud_uploaded : Call (Option Metadata) → Backend
unfolding on_pcloud_failure
pcloud_uploaded (fails e) = on_pcloud_failure e
pcloud_uploaded (returns none) = on_pcloud_failure (failed (codes "Unable to upload backup file."))
pcloud_uploaded (returns (some m)) =
    if m.has_fileid
    then Backend.leaves PointStatus.upload_complete m.path
    else Backend.leaves PointStatus.upload_in_progress none

pcloud_upload : PCloud → Option Failure → Backend
unfolding pcloud_uploaded
pcloud_upload p (some e) = on_pcloud_failure e
pcloud_upload p none = pcloud_uploaded p.upload

unfoldable pub storage_pcloud : PCloud → Backend
unfolding pcloud_upload
storage_pcloud p = pcloud_upload p p.create_folder
