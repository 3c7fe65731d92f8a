-- ===== src/Storage/Dispatch/Missing.antt =====
-- Uploads without a local zip.
use mathlib.Core.Option
use backupsheep.Prelude.{ℕ, ◌≡◌, ◌≢◌, refl, Bool, true, ◌∷◌, none, some}
use backupsheep.Prelude.Text.{codes}
use backupsheep.Model.Status.{PointStatus, StorageCode}
use backupsheep.Model.Rows.{Text, StoragePoint, Db}
use backupsheep.Upload.{Backend, UploadCall, UploadEnd, has_files_table, supported, storage_upload}
use backupsheep.Upload.Outcome.{point_of}
use backupsheep.Upload.Outcome.Left.{storage_upload_left}
use backupsheep.Storage.Failures.{file_not_found, returns}
use backupsheep.Storage.GoogleDrive.{
  find_or_create, find_node_folder, upload_into, storage_google_drive,
}
use backupsheep.Storage.OneDrive.{storage_onedrive}
use backupsheep.Storage.Dropbox.{storage_dropbox}
use backupsheep.Storage.Azure.{storage_azure}
use backupsheep.Storage.Local.{storage_local}
use backupsheep.Storage.Objects.{put_object}
use backupsheep.Storage.Dispatch.{Services, storage_backend}

-- The local zip is gone, and nothing else fails: the clients connect and raise for the missing file
-- alone, the folders of Google Drive are found or created, and the target directory can be made.
pub record IsMissing (s : Services) : Type 0 where
  pub gone : s.local ≡ none
  pub connects : s.bucket.connect ≡ none
  pub raises : (key : Text) → s.bucket.put key ≡ some file_not_found
  pub folder : ℕ
  pub folder_rest : Text
  pub found :
      find_node_folder s.drive s.zip.name_slug
        (find_or_create (codes "BackupSheep") s.drive.search_bs s.drive.create_bs)
      ≡ returns (some (folder ∷ folder_rest))
  pub session : Text
  pub opens : s.drive.open_session ≡ returns session
  pub connects_azure : s.azure.connect ≡ none
  pub makes : s.disk.make_directory ≡ none

storage_backend-missing :
    (s : Services) (code : StorageCode)
    → IsMissing s
    → supported code ≡ true
    → code ≢ StorageCode.pcloud
    → storage_backend code s ≡ Backend.leaves PointStatus.upload_failed_file_not_found none
unfolding storage_backend put_object supported storage_dropbox storage_onedrive storage_google_drive
    storage_azure storage_local upload_into
storage_backend-missing s StorageCode.pcloud m h k = absurd (k refl)
storage_backend-missing s StorageCode.unsupported m h k = cc
storage_backend-missing s StorageCode.dropbox m h k = rw m.gone refl
storage_backend-missing s StorageCode.onedrive m h k = rw m.gone refl
storage_backend-missing s StorageCode.google_drive m h k = simp (m.found, m.opens, m.gone) refl
storage_backend-missing s StorageCode.azure m h k = simp (m.connects_azure, m.gone) refl
storage_backend-missing s StorageCode.local m h k = simp (m.makes, m.gone) refl
storage_backend-missing s _ m h k = simp (m.connects, m.raises) refl

-- An upload whose local zip is gone, where nothing else fails, ends at once for every storage type but
-- pCloud: no retry is scheduled, and the storage point is UPLOAD_FAILED_FILE_NOT_FOUND.
storage_upload_missing :
    (may_retry : ℕ → ℕ → Bool) (s : Services) (c : UploadCall) (db : Db) (q : StoragePoint)
    → IsMissing s
    → has_files_table db.node.type db.node.integration ≡ true
    → point_of c db ≡ some q
    → supported q.storage_code ≡ true
    → q.storage_code ≢ StorageCode.pcloud
    → ((storage_upload may_retry (storage_backend q.storage_code s) c db).0 ≡ UploadEnd.done)
      × (Option.map
            (λ p. p.status)
            (point_of c (storage_upload may_retry (storage_backend q.storage_code s) c db).1)
          ≡ some PointStatus.upload_failed_file_not_found)
storage_upload_missing may_retry s c db q m known found code other =
    rw (storage_backend-missing s q.storage_code m code other) (
      storage_upload_left may_retry c db q known found code PointStatus.upload_failed_file_not_found
        none)
